-- ===== src/Routes/Serve/Talk/Operations.antt =====
-- The endpoints that change something at the node by its name alone keep to their specification.
use xray_bridge.Prelude.{refl}
use xray_bridge.Text.{Str}
use xray_bridge.Config.{Settings}
use xray_bridge.Extern.Http.{Headers}
use xray_bridge.App.{Platform, Client, pure}
use xray_bridge.Xray.Handler as XHandler
use xray_bridge.Xray.Routing as XRouting
use xray_bridge.Routes.Extract.{Extracted}
use xray_bridge.Routes.Handler
use xray_bridge.Routes.Routing
use xray_bridge.Routes.Serve.{
  handle, delete_inbound, delete_outbound, post_logger_restart, delete_routing_rule,
}
use xray_bridge.Routes.Serve.Talk.Replies.{Renders}
use xray_bridge.Routes.Serve.Talk.Rules.{KeepsTo, checked, extracted, sends}

module _ (p : Platform) (settings : Settings) (headers : Headers) (client : Client p) where
  pub post_logger_restart-KeepsTo :
      KeepsTo p settings headers client post_logger_restart
        (handle p settings headers (pure p client) post_logger_restart)
  unfolding handle Handler.restart_logger_handler XRouting.restart_logger Handler.operation_result
  post_logger_restart-KeepsTo = checked p settings headers client post_logger_restart _ (
      sends p settings headers client post_logger_restart _ _ (λ x. x) refl
        (λ reply. (refl, Renders.logger_restarted)))

  pub delete_inbound-KeepsTo :
      (path : Extracted Str)
      → KeepsTo p settings headers client
          (delete_inbound path)
          (handle p settings headers (pure p client) (delete_inbound path))
  unfolding handle Handler.remove_inbound_handler XHandler.remove_inbound Handler.operation_result
  delete_inbound-KeepsTo path =
      let e = delete_inbound path in
      extracted p settings headers client e path _ (λ (g, rpc, (x, same, _)). (x, same))
        (λ tag same. checked p settings headers client e _ (
          sends p settings headers client e _ _ (λ x. x) (tag, same, refl)
            (λ reply. (refl, Renders.inbound_removed))))

  pub delete_outbound-KeepsTo :
      (path : Extracted Str)
      → KeepsTo p settings headers client
          (delete_outbound path)
          (handle p settings headers (pure p client) (delete_outbound path))
  unfolding handle Handler.remove_outbound_handler XHandler.remove_outbound Handler.operation_result
  delete_outbound-KeepsTo path =
      let e = delete_outbound path in
      extracted p settings headers client e path _ (λ (g, rpc, (x, same, _)). (x, same))
        (λ tag same. checked p settings headers client e _ (
          sends p settings headers client e _ _ (λ x. x) (tag, same, refl)
            (λ reply. (refl, Renders.outbound_removed))))

  pub delete_routing_rule-KeepsTo :
      (path : Extracted Str)
      → KeepsTo p settings headers client
          (delete_routing_rule path)
          (handle p settings headers (pure p client) (delete_routing_rule path))
  unfolding handle Routing.remove_rule_handler XRouting.remove_routing_rule Routing.operation_result
  delete_routing_rule-KeepsTo path =
      let e = delete_routing_rule path in
      extracted p settings headers client e path _ (λ (g, rpc, (x, same, _)). (x, same))
        (λ tag same. checked p settings headers client e _ (
          sends p settings headers client e _ _ (λ x. x) (tag, same, refl)
            (λ reply. (refl, Renders.rule_removed))))
