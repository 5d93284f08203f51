-- ===== src/Routes/Router/Conflicts.antt =====
-- Which routes of the table a path can fit.
use xray_bridge.Prelude.{
  Option, Bool, true, false, ◌&&◌, ◌||◌, not, ◌≡◌, ◌⊎◌, refl, inl, inr, List, [], ◌∷◌, In, arith,
  some, none, Option-cases, ◌∙◌, sym, ap,
}
use xray_bridge.Text.{Str, utf8, str_eq, starts_with}
use xray_bridge.Text.Laws.{str_eq_iff}
use xray_bridge.Text.Split.{split}
use xray_bridge.Routes.Router.{
  endpoint, methods_at, find_method, Extracted, routed, Axum, routes, build_router, dispatch,
  Request,
}
use xray_bridge.Routes.Path.{
  captured, segment, Segment, literal, capture, wildcard, segments, fits, Fits, is_static,
}

-- Whether some path may fit both.
overlap : List Segment → List Segment → Bool
overlap [] [] = true
overlap [] (s ∷ q) = false
overlap (s ∷ p) [] = false
overlap (wildcard ∷ p) (s ∷ q) = true
overlap (literal a ∷ p) (wildcard ∷ q) = true
overlap (capture ∷ p) (wildcard ∷ q) = true
overlap (literal a ∷ p) (literal b ∷ q) = str_eq a b && overlap p q
overlap (literal a ∷ p) (capture ∷ q) = overlap p q
overlap (capture ∷ p) (literal b ∷ q) = overlap p q
overlap (capture ∷ p) (capture ∷ q) = overlap p q

overlap-fits :
    (p q : List Segment) (path : List Str)
    → fits p path ≡ true
    → fits q path ≡ true
    → overlap p q ≡ true
unfolding overlap fits
overlap-fits [] [] path h k = refl
overlap-fits [] (literal b ∷ q) [] h k = cc
overlap-fits [] (capture ∷ q) [] h k = cc
overlap-fits [] (wildcard ∷ q) [] h k = cc
overlap-fits [] (s ∷ q) (x ∷ path) h k = cc
overlap-fits (literal b ∷ p) [] [] h k = cc
overlap-fits (capture ∷ p) [] [] h k = cc
overlap-fits (wildcard ∷ p) [] [] h k = cc
overlap-fits (s ∷ p) [] (x ∷ path) h k = cc
overlap-fits (wildcard ∷ p) (s ∷ q) path h k = refl
overlap-fits (literal a ∷ p) (wildcard ∷ q) path h k = refl
overlap-fits (capture ∷ p) (wildcard ∷ q) path h k = refl
overlap-fits (literal a ∷ p) (literal b ∷ q) [] h k = cc
overlap-fits (literal a ∷ p) (literal b ∷ q) (x ∷ path) h k =
    ground (arith, overlap-fits p q path, str_eq_iff a x, str_eq_iff b x, str_eq_iff a b)
overlap-fits (literal a ∷ p) (capture ∷ q) [] h k = cc
overlap-fits (literal a ∷ p) (capture ∷ q) (x ∷ path) h k = ground (arith, overlap-fits p q path)
overlap-fits (capture ∷ p) (literal b ∷ q) [] h k = cc
overlap-fits (capture ∷ p) (literal b ∷ q) (x ∷ path) h k = ground (arith, overlap-fits p q path)
overlap-fits (capture ∷ p) (capture ∷ q) [] h k = cc
overlap-fits (capture ∷ p) (capture ∷ q) (x ∷ path) h k = ground (arith, overlap-fits p q path)

-- The two are the same route, or no path fits both, or one of them is static.
settled : Str → Str → Bool
settled r s =
    str_eq r s
    || (not (overlap (segments r) (segments s))
        || (is_static (segments r) || is_static (segments s)))

unfoldable pub all : (Str → Bool) → List Str → Bool
all f [] = true
all f (r ∷ rs) = f r && all f rs

pub all-In : (f : Str → Bool) (r : Str) (rs : List Str) → all f rs ≡ true → In r rs → f r ≡ true
unfolding all
all-In f r [] h i = absurd i
all-In f r (s ∷ rs) h (inl same) = ground (arith, ap f same)
all-In f r (s ∷ rs) h (inr i) = ground (arith, all-In f r rs, i)

routes-settled : all (λ r. all (settled r) routes) routes ≡ true
unfolding settled overlap segments segment build_router utf8 split is_static str_eq all starts_with
routes-settled = refl

-- If a path fits two routes, they are the same or one of them is static.
Fits-settled :
    (r s path : Str)
    → In r routes
    → In s routes
    → Fits r path
    → Fits s path
    → (r ≡ s) ⊎ (is_static (segments r) ≡ true) ⊎ (is_static (segments s) ≡ true)
unfolding settled
Fits-settled r s path i j h k =
    let pair : settled r s ≡ true =
      all-In (settled r) s routes (all-In (λ x. all (settled x) routes) r routes routes-settled i)
        j in
    ground (
      arith,
      pair,
      str_eq_iff r s,
      overlap-fits (segments r) (segments s) (split (utf8 "/") path) h k,
    )

-- The table has no two routes that a path could be torn between: whatever router keeps to axum's
-- documented behaviour, it finds the same route for a path, or none.
pub find_unique : (a b : Axum) (path : Str) → a.find routes path ≡ b.find routes path
find_unique a b path = elim (Option-cases (a.find routes path)) [
  | inl missing ↦ elim (Option-cases (b.find routes path)) [
    | inl absent ↦ missing ∙ sym absent
    | inr (s, found) ↦
        let (j, k) = b.find-fits routes path found in
        absurd (a.find-complete routes path s j k missing)
  ]
  | inr (r, found) ↦
      let (i, h) = a.find-fits routes path found in
      elim (Option-cases (b.find routes path)) [
        | inl absent ↦ absurd (b.find-complete routes path r i h absent)
        | inr (s, got) ↦
            let (j, k) = b.find-fits routes path got in
            elim (Fits-settled r s path i j h k) [
              | inl same ↦ found ∙ ap some same ∙ sym got
              | inr (inl static) ↦ found ∙ sym (b.find-static routes path r i h static)
              | inr (inr static) ↦ a.find-static routes path s j k static ∙ sym got
            ]
      ]
]

routed-same :
    (f g : Str → Extracted Str) (request : Request) (found : Option Str)
    → ((s : Str) → f s ≡ g s)
    → routed f request found ≡ routed g request found
unfolding routed
routed-same f g request none same = refl
routed-same f g request (some route) same =
    elim (Option-cases (find_method request.method (methods_at route build_router))) [
      | inl missing ↦ rw (missing, routed) refl
      | inr (target, found) ↦
          rw (found, routed)
            (ap (λ x. endpoint (target request x))
              (same (captured (segments route) (split (utf8 "/") request.path))))
    ]

-- A request is sent to the same endpoint by every router that keeps to axum's documented behaviour
-- and decodes path parameters alike: no two routes of the table compete for a path.
pub dispatch_unique :
    (a b : Axum) (request : Request)
    → ((s : Str) → a.path_param s ≡ b.path_param s)
    → dispatch a request ≡ dispatch b request
unfolding dispatch
dispatch_unique a b request same =
    ap (routed a.path_param request) (find_unique a b request.path)
    ∙ routed-same a.path_param b.path_param request (b.find routes request.path) same
