-- ===== src/Tests/Source.antt =====
-- The unit tests that stand in the files of src/, run on the model: each is the conjunction of its
-- assertions.
mod Asserts
mod Auth
mod Error
mod Stats
mod Nodes
mod Routes
