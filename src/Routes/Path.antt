-- ===== src/Routes/Path.antt =====
-- The paths that the routes of src/routes/mod.rs stand for, as axum documents them.
use xray_bridge.Prelude.{Bool, true, false, ◌&&◌, not, ◌≡◌, List, [], ◌∷◌, map, if◌then◌else◌, ◌==◌}
use xray_bridge.Text.{Str, utf8, str_eq, is_empty}
use xray_bridge.Text.Split.{split}
use xray_bridge.Text.Split.Laws.{join}

-- The part of a route between two slashes.
pub data Segment : Type 0 where
  literal : Str → Segment
  capture : Segment
  wildcard : Segment

unfoldable pub segment : Str → Segment
segment [] = literal []
segment (b ∷ name) =
    if b == b':' then capture else if b == b'*' then wildcard else literal (b ∷ name)

unfoldable pub segments : Str → List Segment
unfolding segment
segments route = map segment (split (utf8 "/") route)

-- Which paths a route stands for, by its segments and the path's: a capture stands for one segment,
-- a wildcard for all the rest; neither stands for nothing.
unfoldable pub fits : List Segment → List Str → Bool
fits [] [] = true
fits (literal s ∷ route) (x ∷ path) = str_eq s x && fits route path
fits (capture ∷ route) (x ∷ path) = not (is_empty x) && fits route path
fits (wildcard ∷ route) (x ∷ []) = not (is_empty x)
fits (wildcard ∷ route) (x ∷ y ∷ path) = true
fits _ _ = false

unfoldable pub is_static : List Segment → Bool
is_static [] = true
is_static (literal s ∷ route) = is_static route
is_static _ = false

abbrev pub Fits : Str → Str → Type 0
Fits route path = fits (segments route) (split (utf8 "/") path) ≡ true

-- The segment or the segments that the capture of a route stands for.
unfoldable pub captured : List Segment → List Str → Str
captured (capture ∷ route) (x ∷ path) = x
captured (wildcard ∷ route) path = join (utf8 "/") path
captured (literal s ∷ route) (x ∷ path) = captured route path
captured _ _ = []
