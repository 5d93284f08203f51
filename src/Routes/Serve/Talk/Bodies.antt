-- ===== src/Routes/Serve/Talk/Bodies.antt =====
-- The endpoints that read a body keep to their specification.
use xray_bridge.Prelude.{subst, refl, ◌≡◌, Result, ok, inl, inr, some, Option-cases, Result-cases}
use xray_bridge.Text.{Str, utf8}
use xray_bridge.Config.{Settings}
use xray_bridge.Extern.Http.{Headers}
use xray_bridge.App.{Platform, Client, App, pure, ◌>>=◌}
use xray_bridge.Xray.Handler as XHandler
use xray_bridge.Xray.Handler.{or_fail}
use xray_bridge.Error.{AppError, Response}
use xray_bridge.Xray.Routing as XRouting
use xray_bridge.Xray.Account.{build_account_typed_message}
use xray_bridge.Routes.Extract.{Extracted}
use xray_bridge.Xray.Account.Kinds.{number_of}
use xray_bridge.Routes.Handler
use xray_bridge.Routes.Routing
use xray_bridge.Routes.Serve.{
  handle, Endpoint, post_users, post_inbounds, post_outbounds, post_routing_test, put_balancer,
}
use xray_bridge.Routes.Serve.Talk.{Talks-send, Talks-or_fail}
use xray_bridge.Routes.Serve.Talk.Spec.{Asks, Excuses}
use xray_bridge.Routes.Serve.Talk.Replies.{Renders}
use xray_bridge.Routes.Serve.Talk.Rules.{
  IsReady, KeepsTo, answers, checked, extracted, sends, sends_then,
}
use xray_bridge.Json.{Json, get, str, as_str}
use xray_bridge.Routes.Handler.Config.{json_to_inbound_config, json_to_outbound_config}
use xray_bridge.Routes.Handler.Config.Whole.{
  json_to_inbound_config-ok_iff, json_to_outbound_config-ok_iff,
}

module _ (p : Platform) (settings : Settings) (headers : Headers) (client : Client p) where
  -- ... after the test for a tag and the conversion of a configuration. The tag in the answer is the
  -- configuration's.
  tagged_then :
      {T : Type 0} (e : Endpoint) (v : Json) (convert : Json → Result T AppError) (tag : T → Str)
      (k : Str → T → App p Response)
      → (IsReady p settings headers client e → (config : T) × (convert v ≡ ok config))
      → ((config : T) → convert v ≡ ok config → get v (utf8 "tag") ≡ some (str (tag config)))
      → ((config : T)
          → convert v ≡ ok config
          → KeepsTo p settings headers client e (k (tag config) config))
      → KeepsTo p settings headers client e
          (Handler.has_tag p v >>= λ t. or_fail p client (convert v) >>= λ config. k t config)
  unfolding Handler.has_tag as_str
  tagged_then e v convert tag k there same h w = elim (Option-cases (get v (utf8 "tag"))) [
    | inl missing ↦
        rw (missing, Handler.has_tag)
          (inl (refl, tt, λ x. let (config, good) = there x in cc (missing, same config good)))
    | inr (t, found) ↦ elim (Result-cases (convert v)) [
      | inl (error, bad) ↦
          rw (found, Handler.has_tag, bad)
            (inl (refl, tt, λ x. let (config, good) = there x in cc (bad, good)))
      | inr (config, good) ↦ rw (same config good, Handler.has_tag, good, as_str) (h config good w)
    ]
  ]

  pub post_users-KeepsTo :
      (given : Extracted Handler.AddUserBody)
      → KeepsTo p settings headers client
          (post_users given)
          (handle p settings headers (pure p client) (post_users given))
  unfolding handle Handler.add_user_handler XHandler.add_user Handler.operation_result
  post_users-KeepsTo given =
      let e = post_users given in
      checked p settings headers client e _ (
        extracted p settings headers client e given _
          (λ (g, rpc, (b, typed, same, built, _)). (b, same))
          (λ b same. answers p settings headers client e _ _ (
            Talks-or_fail p client (Excuses e) (IsReady p settings headers client e) (Asks p e) _ _
              _ _
              (λ (g, rpc, (b2, typed, same2, built, _)).
                let one : b2 ≡ b = cc (same, same2) in
                (
                  typed,
                  subst
                      (λ (x : Handler.AddUserBody).
                        build_account_typed_message p.unicode p.prost
                          (p.unicode.to_lowercase x.proto) x.uuid x.flow x.vmess_security x.password
                          x.ss_cipher
                        ≡ ok typed)
                      one built,
                ))
              (λ typed built.
                Talks-send p client (Excuses e) (IsReady p settings headers client e) (Asks p e) _ _
                  _ (λ x. x) (b, typed, same, built, refl)
                  (λ reply. (refl, Renders.user_added b same))))))

  pub post_routing_test-KeepsTo :
      (given : Extracted Routing.TestRouteBody)
      → KeepsTo p settings headers client
          (post_routing_test given)
          (handle p settings headers (pure p client) (post_routing_test given))
  unfolding handle Routing.test_route_handler XRouting.test_route XRouting.network_from_str
      number_of
  post_routing_test-KeepsTo given =
      let e = post_routing_test given in
      checked p settings headers client e _ (
        extracted p settings headers client e given _ (λ (g, rpc, (x, same, _)). (x, same))
          (λ b same.
            sends_then p settings headers client e _ _ _ (λ x. x) (b, same, refl)
              (λ r. (refl, Renders.route_tested r))))

  pub put_balancer-KeepsTo :
      (path : Extracted Str) (given : Extracted Routing.OverrideBalancerBody)
      → KeepsTo p settings headers client
          (put_balancer path given)
          (handle p settings headers (pure p client) (put_balancer path given))
  unfolding handle Routing.override_balancer_handler XRouting.override_balancer_target
      Routing.operation_result
  put_balancer-KeepsTo path given =
      let e = put_balancer path given in
      extracted p settings headers client e path _
        (λ (g, rpc, (tag, b, found, same, _)). (tag, found))
        (λ tag found. checked p settings headers client e _ (
          extracted p settings headers client e given _
            (λ (g, rpc, (tag, b, found, same, _)). (b, same))
            (λ b same.
              sends p settings headers client e _ _ (λ x. x) (tag, b, found, same, refl)
                (λ reply. (refl, Renders.balancer_overridden)))))

  pub post_inbounds-KeepsTo :
      (given : Extracted Handler.InboundConfigBody)
      → KeepsTo p settings headers client
          (post_inbounds given)
          (handle p settings headers (pure p client) (post_inbounds given))
  unfolding handle Handler.add_inbound_handler XHandler.add_inbound Handler.operation_result
  post_inbounds-KeepsTo given =
      let e = post_inbounds given in
      checked p settings headers client e _ (
        extracted p settings headers client e given _
          (λ (g, rpc, (b, config, same, converted, _)). (b, same))
          (λ b same.
            tagged_then e b.config (json_to_inbound_config p.base64) (λ c. c.tag) _
              (λ (g, rpc, (b2, config, same2, converted, _)). (
                config,
                subst
                    (λ (x : Handler.InboundConfigBody).
                      json_to_inbound_config p.base64 x.config ≡ ok config)
                    (cc (same, same2)) converted,
              ))
              (λ c converted.
                ((json_to_inbound_config-ok_iff p.base64 b.config c).0 converted).tag_at)
              (λ c converted.
                sends p settings headers client e _ _ (λ x. x) (b, c, same, converted, refl)
                  (λ reply. (refl, Renders.inbound_added)))))

  pub post_outbounds-KeepsTo :
      (given : Extracted Handler.InboundConfigBody)
      → KeepsTo p settings headers client
          (post_outbounds given)
          (handle p settings headers (pure p client) (post_outbounds given))
  unfolding handle Handler.add_outbound_handler XHandler.add_outbound Handler.operation_result
  post_outbounds-KeepsTo given =
      let e = post_outbounds given in
      checked p settings headers client e _ (
        extracted p settings headers client e given _
          (λ (g, rpc, (b, config, same, converted, _)). (b, same))
          (λ b same.
            tagged_then e b.config (json_to_outbound_config p.base64) (λ c. c.tag) _
              (λ (g, rpc, (b2, config, same2, converted, _)). (
                config,
                subst
                    (λ (x : Handler.InboundConfigBody).
                      json_to_outbound_config p.base64 x.config ≡ ok config)
                    (cc (same, same2)) converted,
              ))
              (λ c converted.
                ((json_to_outbound_config-ok_iff p.base64 b.config c).0 converted).tag_at)
              (λ c converted.
                sends p settings headers client e _ _ (λ x. x) (b, c, same, converted, refl)
                  (λ reply. (refl, Renders.outbound_added)))))
