-- ===== src/Routes/Router/Users.antt =====
-- Where a request about one user is sent.
use xray_bridge.Prelude.{
  append-nil, Bool, true, false, ◌||◌, not, ◌≡◌, ◌≢◌, ◌⊎◌, refl, inl, inr, List, [], ◌∷◌, ◌++◌, In,
  All, arith, Bool-cases, some, none, Option-cases, subst, ◌∙◌, sym, ap, if◌then◌else◌,
}
use xray_bridge.Text.{Str, utf8, str_eq, is_empty, starts_with}
use xray_bridge.Text.Laws.{str_eq_iff, is_empty_iff}
use xray_bridge.Text.Split.{split}
use xray_bridge.Text.Split.Laws.{join, split-join, IsPlain}
use xray_bridge.Routes.Router.{
  routed, Axum, routes, build_router, dispatch, Request, methods_at, find_method, method_eq, serves,
  delete, endpoint, method_not_allowed,
}
use xray_bridge.Routes.Path.{segment, segments, fits, Fits, is_static, captured}
use xray_bridge.Routes.Router.Conflicts.{all, all-In}
use xray_bridge.Routes.Body.{and_then_extract, remove_user_query}
use xray_bridge.Routes.Serve.{delete_user}

abbrev user_route : Str
user_route = utf8 "/v1/users/:email"

-- The paths that other routes take away from it.
abbrev pub is_taken : Str → Bool
is_taken email = str_eq email (utf8 "online") || str_eq email (utf8 "stats")

abbrev pub user_path : Str → Str
user_path email = utf8 "/v1/users/" ++ email

user_route-In : In user_route routes
unfolding build_router utf8
user_route-In = inr (inr (inr (inr (inr (inr (inr (inr (inl refl))))))))

online-In : In (utf8 "/v1/users/online") routes
unfolding build_router utf8
online-In = inr (inr (inr (inl refl)))

stats-In : In (utf8 "/v1/users/stats") routes
unfolding build_router utf8
stats-In = inr (inr (inr (inr (inl refl))))

module _ (a : Axum) where
  online_route : a.find routes (user_path (utf8 "online")) ≡ some (user_path (utf8 "online"))
  unfolding build_router segments utf8 split starts_with fits str_eq is_static
  online_route =
      a.find-static routes (utf8 "/v1/users/online") (utf8 "/v1/users/online") online-In refl refl

  stats_route : a.find routes (user_path (utf8 "stats")) ≡ some (user_path (utf8 "stats"))
  unfolding build_router segments utf8 split starts_with fits str_eq is_static
  stats_route =
      a.find-static routes (utf8 "/v1/users/stats") (utf8 "/v1/users/stats") stats-In refl refl

online_refused : find_method delete (methods_at (user_path (utf8 "online")) build_router) ≡ none
unfolding find_method methods_at build_router utf8 str_eq method_eq serves
online_refused = refl

stats_refused : find_method delete (methods_at (user_path (utf8 "stats")) build_router) ≡ none
unfolding find_method methods_at build_router utf8 str_eq method_eq serves
stats_refused = refl

user_found :
    find_method delete (methods_at user_route build_router)
    ≡ some (λ r name. delete_user name (and_then_extract r.remove_user_fields remove_user_query))
unfolding find_method methods_at build_router utf8 str_eq method_eq serves
user_found = refl

module _ (email : Str) (some_email : email ≢ []) (plain : IsPlain b'/' email) where
  path_segments : split (utf8 "/") (user_path email) ≡ [] ∷ utf8 "v1" ∷ utf8 "users" ∷ email ∷ []
  unfolding utf8 join
  path_segments =
      ap (λ s. split (utf8 "/") (utf8 "/v1/users/" ++ s)) (sym (append-nil email))
      ∙ split-join b'/' [] [] (utf8 "v1" ∷ utf8 "users" ∷ email ∷ []) tt plain_parts
    where
      plain_parts : All (IsPlain b'/') (utf8 "v1" ∷ utf8 "users" ∷ email ∷ [])
      plain_parts = ground (arith, plain)

  user_routes :
      all
        (λ r.
          str_eq r user_route
          || (str_eq r (utf8 "/v1/users/online")
              || (str_eq r (utf8 "/v1/users/stats")
                  || not (fits (segments r) ([] ∷ utf8 "v1" ∷ utf8 "users" ∷ email ∷ [])))))
        routes
      ≡ true
  unfolding all segments build_router utf8 split str_eq starts_with fits
  user_routes = refl

  -- The routes that the path fits.
  fitting :
      (r : Str)
      → In r routes
      → Fits r (user_path email)
      → (r ≡ user_route) ⊎ (((r ≡ utf8 "/v1/users/online") ⊎ (r ≡ utf8 "/v1/users/stats")))
  fitting r i h =
      let row =
        all-In
          (λ r.
            str_eq r user_route
            || (str_eq r (utf8 "/v1/users/online")
                || (str_eq r (utf8 "/v1/users/stats")
                    || not (fits (segments r) ([] ∷ utf8 "v1" ∷ utf8 "users" ∷ email ∷ [])))))
          r routes user_routes i in
      let fit : fits (segments r) ([] ∷ utf8 "v1" ∷ utf8 "users" ∷ email ∷ []) ≡ true =
        (rw path_segments at h) in
      ground (
        arith,
        row,
        fit,
        str_eq_iff r user_route,
        str_eq_iff r (utf8 "/v1/users/online"),
        str_eq_iff r (utf8 "/v1/users/stats"),
      )

  user_parts_fit : fits (segments user_route) ([] ∷ utf8 "v1" ∷ utf8 "users" ∷ email ∷ []) ≡ true
  unfolding segments utf8 split starts_with fits str_eq is_empty build_router
  user_parts_fit = ground (arith, some_email, is_empty_iff email)

  user_route-Fits : Fits user_route (user_path email)
  user_route-Fits = ap (fits (segments user_route)) path_segments ∙ user_parts_fit

  parts : List Str
  parts = [] ∷ utf8 "v1" ∷ utf8 "users" ∷ email ∷ []

  not_online_route :
      Fits (utf8 "/v1/users/online") (user_path email) → str_eq email (utf8 "online") ≡ true
  unfolding segments segment utf8 split starts_with fits str_eq parts
  not_online_route h =
      let fit : fits (segments (utf8 "/v1/users/online")) parts ≡ true =
        subst (λ x. fits (segments (utf8 "/v1/users/online")) x ≡ true) path_segments h in
      ground (arith, fit, str_eq_iff (utf8 "online") email, str_eq_iff email (utf8 "online"))

  not_stats_route :
      Fits (utf8 "/v1/users/stats") (user_path email) → str_eq email (utf8 "stats") ≡ true
  unfolding segments segment utf8 split starts_with fits str_eq parts
  not_stats_route h =
      let fit : fits (segments (utf8 "/v1/users/stats")) parts ≡ true =
        subst (λ x. fits (segments (utf8 "/v1/users/stats")) x ≡ true) path_segments h in
      ground (arith, fit, str_eq_iff (utf8 "stats") email, str_eq_iff email (utf8 "stats"))

  -- A name that is not taken.
  untaken_route :
      (a : Axum)
      → str_eq email (utf8 "online") ≡ false
      → str_eq email (utf8 "stats") ≡ false
      → a.find routes (user_path email) ≡ some user_route
  untaken_route a not_online not_stats = elim (Option-cases (a.find routes (user_path email))) [
    | inl missing ↦
        absurd (
          a.find-complete routes (user_path email) user_route user_route-In user_route-Fits missing)
    | inr (r, found) ↦
        let (i, h) = a.find-fits routes (user_path email) found in
        elim (fitting r i h) [
          | inl same ↦ found ∙ ap some same
          | inr (inl same) ↦
              ground
                (arith, not_online, not_online_route (subst (λ x. Fits x (user_path email)) same h))
          | inr (inr same) ↦
              ground
                (arith, not_stats, not_stats_route (subst (λ x. Fits x (user_path email)) same h))
        ]
  ]

  taken_by :
      (a : Axum) (request : Request) (name : Str)
      → request.method ≡ delete
      → request.path ≡ user_path email
      → email ≡ name
      → a.find routes (user_path name) ≡ some (user_path name)
      → find_method delete (methods_at (user_path name) build_router) ≡ none
      → dispatch a request ≡ method_not_allowed
  unfolding dispatch routed
  taken_by a request name is_delete is_path same found refused =
      rw (is_path, same, found, routed, is_delete, refused) refl

  user_captured :
      captured (segments user_route) ([] ∷ utf8 "v1" ∷ utf8 "users" ∷ email ∷ []) ≡ email
  unfolding captured segments utf8 split starts_with
  user_captured = refl

  untaken_by :
      (a : Axum) (request : Request)
      → request.method ≡ delete
      → request.path ≡ user_path email
      → a.find routes (user_path email) ≡ some user_route
      → dispatch a request
        ≡ endpoint (
            delete_user
              (a.path_param email)
              (and_then_extract request.remove_user_fields remove_user_query))
  unfolding dispatch routed
  untaken_by a request is_delete is_path found =
      rw (is_path, found, routed, is_delete, user_found, is_path, path_segments, user_captured) refl

  -- For every router that keeps to axum's documented behaviour: a request to delete a user, whose
  -- name is not empty and holds no slash, is sent to the deletion of that user, unless the user is
  -- called "online" or "stats"; then it is answered 405, since the path belongs to another route.
  pub delete_user-dispatch :
      (a : Axum) (request : Request)
      → request.method ≡ delete
      → request.path ≡ user_path email
      → dispatch a request ≡ (
          if is_taken email
          then method_not_allowed
          else endpoint (
              delete_user
                (a.path_param email)
                (and_then_extract request.remove_user_fields remove_user_query)))
  unfolding dispatch routed
  delete_user-dispatch a request is_delete is_path =
      elim (Bool-cases (str_eq email (utf8 "online"))) [
        | inl online ↦ rw online (
            taken_by a request (utf8 "online") is_delete is_path
              ((str_eq_iff email (utf8 "online")).0 online) (online_route a) online_refused)
        | inr not_online ↦ elim (Bool-cases (str_eq email (utf8 "stats"))) [
          | inl stats ↦
              rw (not_online, stats)
                (taken_by a request (utf8 "stats") is_delete is_path
                  ((str_eq_iff email (utf8 "stats")).0 stats) (stats_route a) stats_refused)
          | inr not_stats ↦
              rw (not_online, not_stats)
                (untaken_by a request is_delete is_path (untaken_route a not_online not_stats))
        ]
      ]
