-- ===== src/Routes/Router/Guard.antt =====
-- Which requests the token guards, by their paths.
use xray_bridge.Prelude.{ℕ, ◌≡◌, ◌≢◌, refl, inl, inr, ◌∙◌, sym, ap, subst, Bool-cases}
use xray_bridge.Text.{Str, utf8, starts_with}
use xray_bridge.Text.Split.{split}
use xray_bridge.Config.{Settings}
use xray_bridge.Auth.Laws.{Grants}
use xray_bridge.App.{Platform, World}
use xray_bridge.Routes.Serve.{healthz, Answer, rejected}
use xray_bridge.Routes.Serve.Laws.{IsRefusal, serve-unauthorized}
use xray_bridge.Routes.Router.{
  method_eq, head, Axum, Request, Method, Target, endpoint, build_router, dispatch, bodiless,
  for_method, serve_request,
}
use xray_bridge.Routes.Path.{segments, Fits, is_static}
use xray_bridge.Routes.Router.Static.{static-same, join-segments}
use xray_bridge.Routes.Router.Table.{◌▸◌, AllRows, Routed-cases, dispatch-Sent}

abbrev pub health_route : Str
health_route = utf8 "/healthz"

-- A target leads to the health check only under the route of the health check.
Only : Str → Method → Target → Type 0
Only route m target =
    (request : Request) (name : _) → target request name ≡ healthz → route ≡ health_route

routes-Only : AllRows Only build_router
unfolding build_router Only
routes-Only =
    (λ r x h. refl, tt)
    ▸ (λ r x h. cc, tt)
    ▸ (λ r x h. cc, tt)
    ▸ (λ r x h. cc, tt)
    ▸ (λ r x h. cc, tt)
    ▸ (λ r x h. cc, tt)
    ▸ (λ r x h. cc, tt)
    ▸ (λ r x h. cc, tt)
    ▸ (λ r x h. cc, tt)
    ▸ (λ r x h. cc, (λ r x h. cc, tt))
    ▸ (λ r x h. cc, tt)
    ▸ (λ r x h. cc, (λ r x h. cc, tt))
    ▸ (λ r x h. cc, tt)
    ▸ (λ r x h. cc, tt)
    ▸ (λ r x h. cc, tt)
    ▸ (λ r x h. cc, tt)
    ▸ (λ r x h. cc, tt)
    ▸ (λ r x h. cc, (λ r x h. cc, tt))
    ▸ tt

health_path : (path : Str) → Fits health_route path → path ≡ health_route
unfolding segments utf8 split is_static starts_with
health_path path h = sym (
    join-segments health_route path
      (static-same (split (utf8 "/") health_route) (split (utf8 "/") path) refl h))

dispatch-healthz :
    (a : Axum) (request : Request)
    → dispatch a request ≡ endpoint healthz
    → request.path ≡ health_route
unfolding Only
dispatch-healthz a request h =
    let row = dispatch-Sent Only a request healthz routes-Only h in
    health_path request.path
      (subst (λ r. Fits r request.path) (row.holds request row.name row.is_target) row.fits)

pub for_method-rejected :
    (m : Method) (status : ℕ) → rejected status ≡ for_method m (rejected status)
unfolding for_method bodiless
for_method-rejected m status = elim (Bool-cases (method_eq m head)) [
  | inl same ↦ rw (same, for_method) refl
  | inr other ↦ rw (other, for_method) refl
]

-- Whatever its method, query and body are, and for every router that keeps to axum's documented
-- behaviour: a request to another path than /healthz that does not carry the bridge's token sends
-- nothing to any node, and it is answered with an error, without its body where the method is HEAD.
pub serve_request-unauthorized :
    (p : Platform) (a : Axum) (settings : Settings) (request : Request) (w : World p)
    → request.path ≢ health_route
    → ¬ Grants settings request.headers
    → ((serve_request p a settings request w).1.sent ≡ w.sent)
      × (reply : Answer) × IsRefusal p.unicode reply
      × ((serve_request p a settings request w).0 ≡ for_method request.method reply)
unfolding serve_request
serve_request-unauthorized p a settings request w other denied =
    elim (Routed-cases (dispatch a request)) [
      | inl (e, found) ↦
          let (silent, refusal) =
            serve-unauthorized p settings request.headers e w
              (λ health. other (dispatch-healthz a request (found ∙ ap endpoint health))) denied in
          rw (found, serve_request) (silent, _, refusal, refl)
      | inr (inl missing) ↦
          rw (missing, serve_request)
            (refl, rejected 404, inr (404, refl), for_method-rejected _ 404)
      | inr (inr refused) ↦
          rw (refused, serve_request)
            (refl, rejected 405, inr (405, refl), for_method-rejected _ 405)
    ]
