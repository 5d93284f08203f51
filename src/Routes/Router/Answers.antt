-- ===== src/Routes/Router/Answers.antt =====
-- What the router answers whatever the headers and the state are.
use xray_bridge.Prelude.{
  ◌≡◌, ◌≢◌, ◌↔◌, ◌∙◌, refl, sym, ap, subst, inl, inr, true, some, Option-cases, In, [], ◌∷◌,
}
use xray_bridge.Text.{Str, utf8, str_eq, starts_with}
use xray_bridge.Text.Split.{split}
use xray_bridge.Json.{bool, object! }
use xray_bridge.Error.{status_ok}
use xray_bridge.Config.{Settings}
use xray_bridge.App.{Platform, World}
use xray_bridge.Routes.Extract.{answer}
use xray_bridge.Routes.Serve.{answered, handle, serve, respond}
use xray_bridge.Routes.Path.{segments, segment, Fits, fits, is_static}
use xray_bridge.Routes.Router.{
  Axum, Request, Method, get, head, post, put, delete, other, not_found, build_router, routes,
  dispatch, routed, methods_at, find_method, serves, for_method, serve_request, method_eq,
  method_number,
}
use xray_bridge.Routes.Router.Reading.{is_read}
use xray_bridge.Routes.Router.Guard.{health_route}

routed-found :
    (path_param : _) (request : Request) (route : Str)
    → routed path_param request (some route) ≢ not_found
unfolding routed
routed-found path_param request route h =
    let methods = methods_at route build_router in
    elim (Option-cases (find_method request.method methods)) [
      | inl missing ↦ cc (rw (missing, routed) at h)
      | inr (target, found) ↦ cc (rw (found, routed) at h)
    ]

-- For every router that keeps to axum's documented behaviour: a request is answered 404 by the router
-- exactly when its path fits no route of the table.
pub dispatch-not_found_iff :
    (a : Axum) (request : Request)
    → (dispatch a request ≡ not_found)
      ↔ ((route : Str) → In route routes → ¬ Fits route request.path)
unfolding dispatch routed
dispatch-not_found_iff a request = elim (Option-cases (a.find routes request.path)) [
  | inl missing ↦ (
    λ h route i fit. a.find-complete routes request.path route i fit missing,
    λ h. rw (missing, dispatch, routed) refl,
  )
  | inr (route, found) ↦ (
    λ h. absurd (
        routed-found a.path_param request route (sym (ap (routed a.path_param request) found) ∙ h)),
    λ h. let (i, fit) = a.find-fits routes request.path found in absurd (h route i fit),
  )
]

read_health : (m : Method) → is_read m ≡ true → serves m get ≡ true
unfolding serves method_eq method_number
read_health get h = refl
read_health head h = refl
read_health post h = cc
read_health put h = cc
read_health delete h = cc
read_health other h = cc

health_Fits : Fits health_route health_route
unfolding segments segment fits split utf8 str_eq starts_with
health_Fits = refl

-- For every router that keeps to axum's documented behaviour: the health check answers 200, with ok
-- true, to GET and HEAD, whatever the headers and the state are; it changes nothing.
pub serve_request-healthz :
    (p : Platform) (a : Axum) (settings : Settings) (request : Request) (w : World p)
    → request.path ≡ health_route
    → is_read request.method ≡ true
    → serve_request p a settings request w ≡ (
      for_method request.method (answered (answer status_ok (object! (("ok", bool true) ∷ [])))),
      w,
    )
unfolding serve_request serve handle respond dispatch routed methods_at find_method build_router
    segments segment is_static utf8 split starts_with str_eq
serve_request-healthz p a settings request w here read =
    let found : a.find routes request.path ≡ some health_route =
      a.find-static routes request.path health_route (inl refl)
        (subst (Fits health_route) (sym here) health_Fits) refl in
    let fits = read_health request.method read in
    rw (found, serve_request, dispatch, routed, methods_at, find_method, fits) refl
