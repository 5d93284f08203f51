-- ===== src/Routes/Router/Static.antt =====
-- Routes without captures: a path that fits one is that route.
use xray_bridge.Prelude.{◌≡◌, refl, true, List, [], ◌∷◌, map, arith, ◌∙◌, sym, ap, subst}
use xray_bridge.Text.{Str, utf8}
use xray_bridge.Text.Laws.{str_eq_iff}
use xray_bridge.Text.Split.{split}
use xray_bridge.Text.Split.Laws.{join, join-split}
use xray_bridge.Routes.Path.{Segment, literal, segment, fits, is_static}

pub segment-static :
    (s : Str) (rest : List Segment)
    → is_static (segment s ∷ rest) ≡ true
    → (segment s ≡ literal s) × (is_static rest ≡ true)
unfolding is_static segment
segment-static [] rest h = (refl, h)
segment-static (b ∷ s) rest h = ground (arith, h)

pub static-same :
    (parts path : List Str)
    → is_static (map segment parts) ≡ true
    → fits (map segment parts) path ≡ true
    → parts ≡ path
unfolding fits
static-same [] [] h k = refl
static-same [] (x ∷ path) h k = cc
static-same (part ∷ parts) [] h k =
    let (same, more) = segment-static part (map segment parts) h in
    let k' : fits (literal part ∷ map segment parts) [] ≡ true =
      subst (λ s. fits (s ∷ map segment parts) [] ≡ true) same k in
    cc
static-same (part ∷ parts) (x ∷ path) h k =
    let (same, more) = segment-static part (map segment parts) h in
    let k' : fits (literal part ∷ map segment parts) (x ∷ path) ≡ true =
      subst (λ s. fits (s ∷ map segment parts) (x ∷ path) ≡ true) same k in
    ground (arith, k', static-same parts path more, str_eq_iff part x)

pub join-segments :
    (route path : Str) → split (utf8 "/") route ≡ split (utf8 "/") path → route ≡ path
unfolding utf8
join-segments route path same =
    sym (join-split b'/' [] route) ∙ ap (join (b'/' ∷ [])) same ∙ join-split b'/' [] path
