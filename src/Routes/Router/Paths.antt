-- ===== src/Routes/Router/Paths.antt =====
-- Which paths the bridge knows.
use xray_bridge.Prelude.{
  ap, In, ◌∙◌, ℕ, Bool, true, false, ◌&&◌, ◌||◌, not, ◌≡◌, ◌⊎◌, refl, inl, inr, List, [], ◌∷◌,
  arith, Bool-cases,
}
use xray_bridge.Text.{Str, utf8, str_eq, is_empty, starts_with}
use xray_bridge.Text.Split.{split}
use xray_bridge.Config.{Settings}
use xray_bridge.App.{Platform, World}
use xray_bridge.Routes.Serve.{Endpoint, rejected}
use xray_bridge.Routes.Router.Table.{Routed-cases}
use xray_bridge.Routes.Path.{segments, segment, fits}
use xray_bridge.Routes.Router.{
  Axum, Request, method_not_allowed, endpoint, build_router, routes, dispatch, serve_request,
}
use xray_bridge.Routes.Router.Answers.{dispatch-not_found_iff}
use xray_bridge.Routes.Router.Conflicts.{all, all-In}

-- The paths of the bridge, by what stands between their slashes: /healthz, and behind /v1 the lists,
-- one user, inbound, outbound, rule or balancer by a name that is not empty, a counter by a name that
-- may hold slashes, and three actions.
unfoldable pub is_known : List Str → Bool
is_known (top ∷ x ∷ []) = str_eq [] top && str_eq (utf8 "healthz") x
is_known (top ∷ v ∷ x ∷ []) =
    str_eq [] top
    && str_eq (utf8 "v1") v
    && (str_eq (utf8 "sys") x
        || str_eq (utf8 "users") x
        || str_eq (utf8 "stats") x
        || str_eq (utf8 "inbounds") x
        || str_eq (utf8 "outbounds") x)
is_known (top ∷ v ∷ x ∷ y ∷ []) =
    str_eq [] top
    && str_eq (utf8 "v1") v
    && ((not (is_empty y)
          && (str_eq (utf8 "users") x
              || str_eq (utf8 "stats") x
              || str_eq (utf8 "inbounds") x
              || str_eq (utf8 "outbounds") x))
        || (str_eq (utf8 "logger") x && str_eq (utf8 "restart") y)
        || (str_eq (utf8 "routing") x && (str_eq (utf8 "test") y || str_eq (utf8 "rules") y)))
is_known (top ∷ v ∷ x ∷ y ∷ z ∷ []) =
    str_eq [] top
    && str_eq (utf8 "v1") v
    && (str_eq (utf8 "stats") x
        || (str_eq (utf8 "routing") x
            && not (is_empty z)
            && (str_eq (utf8 "rules") y || str_eq (utf8 "balancers") y)))
is_known (top ∷ v ∷ x ∷ y ∷ z ∷ more ∷ rest) =
    str_eq [] top && str_eq (utf8 "v1") v && str_eq (utf8 "stats") x
is_known _ = false

-- No route of the table is fit by the parts of a path.
fits_none : List Str → Bool
fits_none parts = all (λ r. not (fits (segments r) parts)) routes

and_false : (b : Bool) → (b && false) ≡ false
and_false true = refl
and_false false = refl

and_true : (b : Bool) → (b && true) ≡ b
and_true true = refl
and_true false = refl

fits_none-empty :
    (top v x : Str) → fits_none (top ∷ v ∷ x ∷ [] ∷ []) ≡ not (is_known (top ∷ v ∷ x ∷ [] ∷ []))
unfolding fits_none all segments segment build_router split starts_with fits is_known utf8 is_empty
    str_eq
fits_none-empty top v x = simp (and_false, and_true) (ground arith)

cons-full : (b : ℕ) (y : Str) → is_empty (b ∷ y) ≡ false
unfolding is_empty
cons-full b y = refl

fits_none-full :
    (top v x y : Str)
    → is_empty y ≡ false
    → fits_none (top ∷ v ∷ x ∷ y ∷ []) ≡ not (is_known (top ∷ v ∷ x ∷ y ∷ []))
unfolding fits_none all segments segment build_router split starts_with fits is_known utf8
fits_none-full top v x y full = elim (Bool-cases (str_eq [] top)) [
  | inr other ↦ rw other (ground arith)
  | inl root ↦ elim (Bool-cases (str_eq (utf8 "v1") v)) [
    | inr other ↦ rw (root, other) (ground arith)
    | inl version ↦ elim (Bool-cases (str_eq (utf8 "users") x)) [
      | inl users ↦ rw (root, version, full, users) (simp (and_false, and_true) refl)
      | inr not_users ↦ elim (Bool-cases (str_eq (utf8 "stats") x)) [
        | inl stats ↦ rw (root, version, full, not_users, stats) (simp (and_false, and_true) refl)
        | inr not_stats ↦
            rw (root, version, full, not_users, not_stats)
              (simp (and_false, and_true) (ground arith))
      ]
    ]
  ]
]

fits_none-five :
    (top v x y z : Str)
    → fits_none (top ∷ v ∷ x ∷ y ∷ z ∷ []) ≡ not (is_known (top ∷ v ∷ x ∷ y ∷ z ∷ []))
unfolding fits_none all segments segment build_router split starts_with fits is_known utf8
fits_none-five top v x y z = elim (Bool-cases (str_eq [] top)) [
  | inr other ↦ rw other (simp (and_false, and_true) refl)
  | inl root ↦ elim (Bool-cases (str_eq (utf8 "v1") v)) [
    | inr other ↦ rw (root, other) (simp (and_false, and_true) refl)
    | inl version ↦ elim (Bool-cases (str_eq (utf8 "stats") x)) [
      | inl stats ↦ rw (root, version, stats) (simp (and_false, and_true) refl)
      | inr not_stats ↦ rw (root, version, not_stats) (simp (and_false, and_true) (ground arith))
    ]
  ]
]

fits_none-known : (parts : List Str) → fits_none parts ≡ not (is_known parts)
unfolding fits_none all segments segment build_router split starts_with fits is_known utf8
fits_none-known [] = refl
fits_none-known (top ∷ []) = ground arith
fits_none-known (top ∷ x ∷ []) = ground arith
fits_none-known (top ∷ v ∷ x ∷ []) = ground arith
fits_none-known (top ∷ v ∷ x ∷ [] ∷ []) = fits_none-empty top v x
fits_none-known (top ∷ v ∷ x ∷ (b ∷ y) ∷ []) = fits_none-full top v x (b ∷ y) (cons-full b y)
fits_none-known (top ∷ v ∷ x ∷ y ∷ z ∷ []) = fits_none-five top v x y z
fits_none-known (top ∷ v ∷ x ∷ y ∷ z ∷ more ∷ rest) = simp (and_false, and_true) (ground arith)

fits_none-unfit :
    (parts : List Str) (rs : List Str)
    → all (λ r. not (fits (segments r) parts)) rs ≡ false
    → (r : Str) × In r rs × (fits (segments r) parts ≡ true)
unfolding all
fits_none-unfit parts [] h = cc
fits_none-unfit parts (r ∷ rs) h = elim (Bool-cases (fits (segments r) parts)) [
  | inl fit ↦ (r, inl refl, fit)
  | inr unfit ↦
      let rest : all (λ r. not (fits (segments r) parts)) rs ≡ false = (rw unfit at h) in
      let (s, i, fit) = fits_none-unfit parts rs rest in (s, inr i, fit)
]

-- For every router that keeps to axum's documented behaviour: a request to a path that the bridge does
-- not know is answered 404 and changes nothing, whatever its method and its headers are; a request to a
-- path that it knows is sent to an endpoint or answered 405, by its method.
pub serve_request-not_found :
    (p : Platform) (a : Axum) (settings : Settings) (request : Request) (w : World p)
    → ((is_known (split (utf8 "/") request.path) ≡ false)
        × (serve_request p a settings request w ≡ (rejected 404, w)))
      ⊎ ((is_known (split (utf8 "/") request.path) ≡ true)
          × ((dispatch a request ≡ method_not_allowed)
              ⊎ ((e : Endpoint) × (dispatch a request ≡ endpoint e))))
unfolding serve_request fits_none
serve_request-not_found p a settings request w =
    let parts = split (utf8 "/") request.path in
    let same = fits_none-known parts in
    elim (Bool-cases (is_known parts)) [
      | inr unknown ↦
          let none : fits_none parts ≡ true = same ∙ ap not unknown in
          let missing = (dispatch-not_found_iff a request).1 (λ route i fit.
            let unfit = all-In (λ r. not (fits (segments r) parts)) route routes none i in
            cc (ap not fit, unfit)) in
          inl (unknown, rw (missing, serve_request) refl)
      | inl known ↦
          let some_fit : fits_none parts ≡ false = same ∙ ap not known in
          let (route, i, fit) = fits_none-unfit parts routes some_fit in
          elim (Routed-cases (dispatch a request)) [
            | inl (e, found) ↦ inr (known, inr (e, found))
            | inr (inr refused) ↦ inr (known, inl refused)
            | inr (inl missing) ↦ absurd ((dispatch-not_found_iff a request).0 missing route i fit)
          ]
    ]
