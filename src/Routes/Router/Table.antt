-- ===== src/Routes/Router/Table.antt =====
-- What holds of every row of the table holds of what a request is sent to.
use xray_bridge.Prelude.{
  All-append, ◌⊎◌, Option, ◌≡◌, refl, inl, inr, some, none, true, Option-cases, List, [], ◌∷◌, All,
  ◌∙◌, sym, subst, Bool-cases,
}
use xray_bridge.Text.{Str, utf8, str_eq}
use xray_bridge.Text.Laws.{str_eq_iff}
use xray_bridge.Text.Split.{split}
use xray_bridge.Routes.Extract.{Extracted}
use xray_bridge.Routes.Serve.{Endpoint}
use xray_bridge.Routes.Router.{
  serves, Axum, Request, Method, Target, Route, Routed, endpoint, not_found, method_not_allowed,
  build_router, routes, methods_at, find_method, routed, dispatch,
}
use xray_bridge.Routes.Path.{captured, segments, Fits}

-- One row after another.
infixr 10 ◌▸◌
abbrev pub ◌▸◌ : {A B : Type 0} → A → B → A × B
a ▸ b = (a, b)

pub Routed-cases :
    (r : Routed)
    → ((e : Endpoint) × (r ≡ endpoint e)) ⊎ ((r ≡ not_found) ⊎ (r ≡ method_not_allowed))
Routed-cases (endpoint e) = inl (e, refl)
Routed-cases not_found = inr (inl refl)
Routed-cases method_not_allowed = inr (inr refl)

module _ (P : Str → Method → Target → Type 0) where
  abbrev pub AllRow : Str → List (Method × Target) → Type 0
  AllRow route = All (λ row. P route row.0 row.1)

  abbrev pub AllRows : List Route → Type 0
  AllRows = All (λ row. AllRow row.0 row.1)

  methods_at-AllRow :
      (route : Str) (table : List Route) → AllRows table → AllRow route (methods_at route table)
  unfolding methods_at
  methods_at-AllRow route [] h = tt
  methods_at-AllRow route ((r, methods) ∷ table) (here, h) = elim (Bool-cases (str_eq r route)) [
    | inl same ↦
        rw (same, methods_at)
          (All-append _ methods (methods_at route table)
            (subst (λ x. AllRow x methods) ((str_eq_iff r route).0 same) here)
            (methods_at-AllRow route table h))
    | inr other ↦ rw (other, methods_at) (methods_at-AllRow route table h)
  ]

  find_method-AllRow :
      (m : Method) (route : Str) (methods : List (Method × Target)) {target : Target}
      → AllRow route methods
      → find_method m methods ≡ some target
      → (m' : Method) × (serves m m' ≡ true) × P route m' target
  unfolding find_method
  find_method-AllRow m route [] h found = cc
  find_method-AllRow m route ((m', t) ∷ methods) {target} (here, h) found =
      elim (Bool-cases (serves m m')) [
        | inl same ↦
            let now : find_method m ((m', t) ∷ methods) ≡ some t = rw (same, find_method) refl in
            let one : t ≡ target = cc (now, found) in (m', same, subst (P route m') one here)
        | inr other ↦
            let next : find_method m ((m', t) ∷ methods) ≡ find_method m methods =
              rw (other, find_method) refl in
            find_method-AllRow m route methods h (sym next ∙ found)
      ]

  -- The row by which a request is sent to an endpoint.
  pub record Sent (request : Request) (e : Endpoint) : Type 0 where
    pub route : Str
    pub method : Method
    pub target : Target
    pub name : Extracted Str
    pub fits : Fits route request.path
    pub answers : serves request.method method ≡ true
    pub is_target : target request name ≡ e
    pub holds : P route method target

  routed-Sent :
      (a : Axum) (request : Request) (e : Endpoint) (found : Option Str)
      → AllRows build_router
      → ((route : Str) → found ≡ some route → Fits route request.path)
      → routed a.path_param request found ≡ endpoint e
      → Sent request e
  unfolding routed
  routed-Sent a request e none rows fit h = cc
  routed-Sent a request e (some route) rows fit h =
      let methods = methods_at route build_router in
      elim (Option-cases (find_method request.method methods)) [
        | inl missing ↦
            let none_found : routed a.path_param request (some route) ≡ method_not_allowed =
              rw (missing, routed) refl in
            cc (none_found, h)
        | inr (target, found) ↦
            let name = a.path_param (captured (segments route) (split (utf8 "/") request.path)) in
            let sent : routed a.path_param request (some route) ≡ endpoint (target request name) =
              rw (found, routed) refl in
            let (m, answers, holds) =
              find_method-AllRow request.method route methods
                (methods_at-AllRow route build_router rows) found in
            record {
              route = route;
              method = m;
              target = target;
              name = name;
              fits = fit route refl;
              answers = answers;
              is_target = cc (sent, h);
              holds = holds;
            }
      ]

  pub dispatch-Sent :
      (a : Axum) (request : Request) (e : Endpoint)
      → AllRows build_router
      → dispatch a request ≡ endpoint e
      → Sent request e
  unfolding dispatch
  dispatch-Sent a request e rows h =
      routed-Sent a request e (a.find routes request.path) rows
        (λ route found. (a.find-fits routes request.path found).1) h
