-- ===== src/Routes/Router.antt =====
-- src/routes/mod.rs: the table of routes, and what a request is sent to.
-- The matching of paths is axum's: a parameter with its documented behaviour.
pub mod Conflicts
pub mod Users
pub mod Static
pub mod Table
pub mod Guard
pub mod Stats
pub mod Reading
pub mod Answers
pub mod Paths
use xray_bridge.Prelude.{
  ℕ, Bool, true, false, ◌&&◌, ◌||◌, not, ◌≡◌, ◌≢◌, Option, none, some, List, [], ◌∷◌, ◌++◌, map, In,
  if◌then◌else◌, ◌==◌, leb,
}
use xray_bridge.Text.{Str, utf8, str_eq, is_empty}
use xray_bridge.Text.Split.{split}
use xray_bridge.Text.Split.Laws.{join}
use xray_bridge.Routes.Path.{segments, Fits, is_static, captured}
use xray_bridge.Config.{Settings}
use xray_bridge.Extern.Http.{Headers}
use xray_bridge.App.{Platform, World}
use xray_bridge.Routes.Extract.{Extracted}
use xray_bridge.Json.{Json}
use xray_bridge.Routes.Body.{
  and_then_extract, StatsFields, RemoveUserFields, AddUserFields, TestRouteFields, reset_query,
  stats_query, remove_user_query, add_user_body, inbound_config_body, test_route_body,
  override_balancer_body,
}
use xray_bridge.Routes.Serve.{
  Endpoint, healthz, get_sys, get_users, get_users_online, get_users_stats, get_stats, get_stat,
  post_users, delete_user, get_inbounds, post_inbounds, delete_inbound, get_outbounds,
  post_outbounds, delete_outbound, post_logger_restart, post_routing_test, get_routing_rules,
  delete_routing_rule, get_balancer, put_balancer, Answer, answered, headed, rejected, dropped,
  serve,
}

-- axum's router: it finds a route that the path fits, if there is one, and a route without captures
-- goes before the others. `path_param` decodes what a capture stands for.
pub record Axum : Type 0 where
  pub find : List Str → Str → Option Str
  pub find-fits :
      (routes : List Str) (path : Str) {route : Str}
      → find routes path ≡ some route
      → In route routes × Fits route path
  pub find-complete :
      (routes : List Str) (path route : Str)
      → In route routes
      → Fits route path
      → find routes path ≢ none
  pub find-static :
      (routes : List Str) (path route : Str)
      → In route routes
      → Fits route path
      → is_static (segments route) ≡ true
      → find routes path ≡ some route
  pub path_param : Str → Extracted Str

-- The methods, `other` for all that no route answers.
pub data Method : Type 0 where
  get head post put delete other : Method

method_number : Method → ℕ
method_number get = 0
method_number post = 1
method_number put = 2
method_number delete = 3
method_number other = 4
method_number head = 5

unfoldable pub method_eq : Method → Method → Bool
unfolding method_number
method_eq a b = method_number a == method_number b

-- Which methods a handler that was given for one method answers: as axum documents, one for GET
-- answers HEAD too.
unfoldable pub serves : (asked given : Method) → Bool
serves asked given = method_eq asked given || (method_eq asked head && method_eq given get)

-- A request, with what axum reads in its query and its body for each type that an endpoint asks for:
-- the fields that are there, or the status of a rejection.
pub record Request : Type 0 where
  pub method : Method
  pub path : Str
  pub headers : Headers
  pub reset_fields : Extracted (Option Bool)
  pub stats_fields : Extracted StatsFields
  pub remove_user_fields : Extracted RemoveUserFields
  pub add_user_fields : Extracted AddUserFields
  pub config_field : Extracted (Option Json)
  pub test_route_fields : Extracted TestRouteFields
  pub target_field : Extracted (Option Str)

-- The endpoint of a request, given its path parameter.
abbrev pub Target : Type 0
Target = Request → Extracted Str → Endpoint

abbrev pub Route : Type 0
Route = Str × List (Method × Target)

unfoldable pub build_router : List Route
build_router =
    (utf8 "/healthz", (get, λ r name. healthz) ∷ [])
    ∷ (utf8 "/v1/sys", (get, λ r name. get_sys) ∷ [])
    ∷ (utf8 "/v1/users", (get, λ r name. get_users) ∷ [])
    ∷ (utf8 "/v1/users/online", (get, λ r name. get_users_online) ∷ [])
    ∷ (
      utf8 "/v1/users/stats",
      (get, λ r name. get_users_stats (and_then_extract r.reset_fields reset_query)) ∷ [],
    )
    ∷ (
      utf8 "/v1/stats",
      (get, λ r name. get_stats (and_then_extract r.stats_fields stats_query)) ∷ [],
    )
    ∷ (
      utf8 "/v1/stats/*name",
      (get, λ r name. get_stat name (and_then_extract r.reset_fields reset_query)) ∷ [],
    )
    ∷ (
      utf8 "/v1/users",
      (post, λ r name. post_users (and_then_extract r.add_user_fields add_user_body)) ∷ [],
    )
    ∷ (
      utf8 "/v1/users/:email",
      (delete, λ r name. delete_user name (and_then_extract r.remove_user_fields remove_user_query))
          ∷ [],
    )
    ∷ (
      utf8 "/v1/inbounds",
      (get, λ r name. get_inbounds)
          ∷ (post, λ r name. post_inbounds (and_then_extract r.config_field inbound_config_body))
          ∷ [],
    )
    ∷ (utf8 "/v1/inbounds/:tag", (delete, λ r name. delete_inbound name) ∷ [])
    ∷ (
      utf8 "/v1/outbounds",
      (get, λ r name. get_outbounds)
          ∷ (post, λ r name. post_outbounds (and_then_extract r.config_field inbound_config_body))
          ∷ [],
    )
    ∷ (utf8 "/v1/outbounds/:tag", (delete, λ r name. delete_outbound name) ∷ [])
    ∷ (utf8 "/v1/logger/restart", (post, λ r name. post_logger_restart) ∷ [])
    ∷ (
      utf8 "/v1/routing/test",
      (post, λ r name. post_routing_test (and_then_extract r.test_route_fields test_route_body))
          ∷ [],
    )
    ∷ (utf8 "/v1/routing/rules", (get, λ r name. get_routing_rules) ∷ [])
    ∷ (utf8 "/v1/routing/rules/:tag", (delete, λ r name. delete_routing_rule name) ∷ [])
    ∷ (
      utf8 "/v1/routing/balancers/:tag",
      (get, λ r name. get_balancer name)
          ∷ (
            put,
            λ r name. put_balancer name (and_then_extract r.target_field override_balancer_body),
          )
          ∷ [],
    )
    ∷ []

abbrev pub routes : List Str
routes = map (λ route. route.0) build_router

-- Routes that were given twice are one, as axum documents: their methods are put together.
unfoldable pub methods_at : Str → List Route → List (Method × Target)
methods_at route [] = []
methods_at route ((r, methods) ∷ rest) =
    let more = methods_at route rest in if str_eq r route then methods ++ more else more

unfoldable pub find_method : Method → List (Method × Target) → Option Target
find_method m [] = none
find_method m ((m', target) ∷ rest) = if serves m m' then some target else find_method m rest

pub data Routed : Type 0 where
  endpoint : Endpoint → Routed
  not_found : Routed
  method_not_allowed : Routed

-- What follows the search for a route.
unfoldable pub routed : (Str → Extracted Str) → Request → Option Str → Routed
routed path_param request none = not_found
routed path_param request (some route) =
    elim (find_method request.method (methods_at route build_router)) [
      | none ↦ method_not_allowed
      | some target ↦
          endpoint (
            target request (path_param (captured (segments route) (split (utf8 "/") request.path))))
    ]

unfoldable pub dispatch : Axum → Request → Routed
dispatch a request = routed a.path_param request (a.find routes request.path)

-- What is left of an answer without its body.
unfoldable pub bodiless : Answer → Answer
bodiless (answered response) = headed response.status
bodiless (headed status) = headed status
bodiless (rejected status) = rejected status
bodiless dropped = dropped

-- axum takes the body off an answer to HEAD.
unfoldable pub for_method : Method → Answer → Answer
for_method m reply = if method_eq m head then bodiless reply else reply

-- The whole server: axum answers for a path or a method that no route has.
unfoldable pub serve_request :
    (p : Platform) → Axum → Settings → Request → World p → Answer × World p
serve_request p a settings request w = elim (dispatch a request) [
  | endpoint e ↦
      let (reply, w') = serve p settings request.headers e w in
      (for_method request.method reply, w')
  | not_found ↦ (rejected 404, w)
  | method_not_allowed ↦ (rejected 405, w)
]
