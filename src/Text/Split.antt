-- ===== src/Text/Split.antt =====
-- `s.split(p)` for a pattern `p` that is not empty.
pub mod Laws
use xray_bridge.Prelude.{ℕ, zero, suc, ◌-◌, List, [], ◌∷◌, ◌++◌, length, if◌then◌else◌}
use xray_bridge.Text.{Str, starts_with}

-- Puts a byte in front of the first part.
push : ℕ → List Str → List Str
push b [] = (b ∷ []) ∷ []
push b (part ∷ parts) = (b ∷ part) ∷ parts

-- `skip` bytes belong to a separator that was found.
split_from : Str → ℕ → Str → List Str
unfolding push
split_from p skip [] = [] ∷ []
split_from p (suc skip) (b ∷ s) = split_from p skip s
split_from p zero (b ∷ s) =
    let found = split_from p (length p - 1) s in
    let more = split_from p zero s in if starts_with p (b ∷ s) then [] ∷ found else push b more

unfoldable pub split : Str → Str → List Str
unfolding split_from
split p s = split_from p 0 s
