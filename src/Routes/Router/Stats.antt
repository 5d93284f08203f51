-- ===== src/Routes/Router/Stats.antt =====
-- Where a request about one counter is sent.
use xray_bridge.Prelude.{
  append-nil, true, ◌||◌, not, ◌≡◌, ◌≢◌, refl, inl, inr, List, [], ◌∷◌, ◌++◌, In, arith, some,
  Option-cases, subst, ◌∙◌, sym, ap,
}
use xray_bridge.Text.{Str, utf8, str_eq, starts_with}
use xray_bridge.Text.Laws.{str_eq_iff, is_empty_iff}
use xray_bridge.Text.Split.{split}
use xray_bridge.Text.Split.Laws.{join, join-split}
use xray_bridge.Routes.Body.{and_then_extract, reset_query}
use xray_bridge.Routes.Router.{
  routed, Axum, routes, build_router, dispatch, Request, methods_at, find_method, method_eq, serves,
  get, endpoint,
}
use xray_bridge.Routes.Path.{wildcard, segments, fits, Fits, captured}
use xray_bridge.Routes.Router.Conflicts.{all, all-In}
use xray_bridge.Routes.Serve.{get_stat}

abbrev stat_route : Str
stat_route = utf8 "/v1/stats/*name"

abbrev pub stat_path : Str → Str
stat_path name = utf8 "/v1/stats/" ++ name

stat_route-In : In stat_route routes
unfolding build_router utf8
stat_route-In = inr (inr (inr (inr (inr (inr (inl refl))))))

stat_found :
    find_method get (methods_at stat_route build_router)
    ≡ some (λ r name. get_stat name (and_then_extract r.reset_fields reset_query))
unfolding find_method methods_at build_router utf8 str_eq method_eq serves
stat_found = refl

stat_segments :
    (name : Str)
    → split (utf8 "/") (stat_path name) ≡ [] ∷ utf8 "v1" ∷ utf8 "stats" ∷ split (utf8 "/") name
unfolding utf8 split starts_with
stat_segments name = refl

-- A wildcard takes the parts of any text that is not empty.
wildcard-fits : (parts : List Str) → join (utf8 "/") parts ≢ [] → fits (wildcard ∷ []) parts ≡ true
unfolding fits join utf8
wildcard-fits [] some_name = absurd (some_name refl)
wildcard-fits (x ∷ []) some_name =
    ground (arith, is_empty_iff x, λ (e : x ≡ []). some_name (append-nil x ∙ e))
wildcard-fits (x ∷ y ∷ parts) some_name = refl

-- The other routes do not fit such a path.
others :
    (parts : List Str)
    → fits (wildcard ∷ []) parts ≡ true
    → all
        (λ r.
          str_eq r stat_route || not (fits (segments r) ([] ∷ utf8 "v1" ∷ utf8 "stats" ∷ parts)))
        routes
      ≡ true
unfolding all segments build_router utf8 split str_eq starts_with fits
others [] h = cc
others (x ∷ []) h = refl
others (x ∷ y ∷ parts) h = refl

module _ (name : Str) (some_name : name ≢ []) where
  name_fits : fits (wildcard ∷ []) (split (utf8 "/") name) ≡ true
  unfolding utf8
  name_fits =
      wildcard-fits (split (utf8 "/") name)
        (λ empty. some_name (sym (join-split b'/' [] name) ∙ empty))

  stat_route-Fits : Fits stat_route (stat_path name)
  unfolding segments fits utf8 split starts_with str_eq
  stat_route-Fits = name_fits

  stat_route-only : (r : Str) → In r routes → Fits r (stat_path name) → r ≡ stat_route
  stat_route-only r i h =
      let row =
        all-In
          (λ r.
            str_eq r stat_route
            || not (fits (segments r) ([] ∷ utf8 "v1" ∷ utf8 "stats" ∷ split (utf8 "/") name)))
          r routes (others (split (utf8 "/") name) name_fits) i in
      let fit : fits (segments r) ([] ∷ utf8 "v1" ∷ utf8 "stats" ∷ split (utf8 "/") name) ≡ true =
        subst (λ x. fits (segments r) x ≡ true) (stat_segments name) h in
      ground (arith, row, fit, str_eq_iff r stat_route)

stat_captured :
    (name : Str)
    → captured (segments stat_route) ([] ∷ utf8 "v1" ∷ utf8 "stats" ∷ split (utf8 "/") name) ≡ name
unfolding captured segments utf8 split starts_with
stat_captured name = join-split b'/' [] name

-- For every router that keeps to axum's documented behaviour: a request to read a counter is sent to
-- the reading of that counter, whatever its name is, slashes included, unless the name is empty.
pub get_stat-dispatch :
    (name : Str) (a : Axum) (request : Request)
    → name ≢ []
    → request.method ≡ get
    → request.path ≡ stat_path name
    → dispatch a request
      ≡ endpoint (get_stat (a.path_param name) (and_then_extract request.reset_fields reset_query))
unfolding dispatch routed
get_stat-dispatch name a request some_name is_get is_path =
    let found : a.find routes (stat_path name) ≡ some stat_route =
      elim (Option-cases (a.find routes (stat_path name))) [
        | inl missing ↦ absurd (
            a.find-complete routes (stat_path name) stat_route stat_route-In
              (stat_route-Fits name some_name) missing)
        | inr (r, got) ↦
            let (i, h) = a.find-fits routes (stat_path name) got in
            got ∙ ap some (stat_route-only name some_name r i h)
      ] in
    rw (is_path, found, routed, is_get, stat_found, is_path, stat_segments name, stat_captured name)
      refl
