-- ===== src/Routes/Serve/Talk/Laws.antt =====
-- What a whole request sends, and how the node's reply decides its answer.
use xray_bridge.Prelude.{
  ◌≡◌, ◌≢◌, ◌⊎◌, refl, ap, ◌∙◌, sym, subst, inl, inr, ok, err, Result, [], ◌∷◌, ◌++◌,
}
use xray_bridge.Config.{Settings}
use xray_bridge.Error.{Response, Status, from_status, into_response}
use xray_bridge.Extern.Http.{Headers}
use xray_bridge.Grpc.{Rpc, Reply}
use xray_bridge.Outcome.{Outcome, done, fail, reject, panic}
use xray_bridge.App.{Platform, Client, World, pure, outgoing}
use xray_bridge.Auth.Laws.{Grants, bearer_auth-cases, bearer_auth-done_iff}
use xray_bridge.Routes.Extract.{node}
use xray_bridge.Routes.Serve.{
  Endpoint, Answer, answered, respond, serve, handle, healthz, get_sys, get_users, get_users_online,
  get_users_stats, get_stats, get_stat, post_users, delete_user, get_inbounds, post_inbounds,
  delete_inbound, get_outbounds, post_outbounds, delete_outbound, post_logger_restart,
  post_routing_test, get_routing_rules, delete_routing_rule, get_balancer, put_balancer,
}
use xray_bridge.Routes.Serve.Context.{handle-context}
use xray_bridge.Routes.Serve.Guarded.{context, entered, node-done, node-fail, context-cases}
use xray_bridge.Routes.Serve.Laws.{IsRefusal, respond_refused, serve-unauthorized}
use xray_bridge.Routes.Serve.Talk.{IsMissing, Mirrors, Succeeds}
use xray_bridge.Routes.Serve.Talk.Spec.{Asks, Excuses, Yields, Forgives}
use xray_bridge.Routes.Serve.Talk.Rules
use xray_bridge.Routes.Serve.Talk.Reads
use xray_bridge.Routes.Serve.Talk.Operations
use xray_bridge.Routes.Serve.Talk.Bodies
use xray_bridge.Routes.Serve.Talk.Missing

module _ (p : Platform) (settings : Settings) (headers : Headers) where
  pub handle-KeepsTo :
      (client : Client p) (e : Endpoint)
      → e ≢ healthz
      → Rules.KeepsTo p settings headers client e (handle p settings headers (pure p client) e)
  handle-KeepsTo client healthz h = absurd (h refl)
  handle-KeepsTo client get_sys h = Reads.get_sys-KeepsTo p settings headers client
  handle-KeepsTo client get_users h = Reads.get_users-KeepsTo p settings headers client
  handle-KeepsTo client get_users_online h =
      Reads.get_users_online-KeepsTo p settings headers client
  handle-KeepsTo client (get_users_stats q) h =
      Reads.get_users_stats-KeepsTo p settings headers client q
  handle-KeepsTo client (get_stats q) h = Reads.get_stats-KeepsTo p settings headers client q
  handle-KeepsTo client (get_stat name q) h =
      Missing.get_stat-KeepsTo p settings headers client name q
  handle-KeepsTo client (post_users body) h =
      Bodies.post_users-KeepsTo p settings headers client body
  handle-KeepsTo client (delete_user email q) h =
      Missing.delete_user-KeepsTo p settings headers client email q
  handle-KeepsTo client get_inbounds h = Reads.get_inbounds-KeepsTo p settings headers client
  handle-KeepsTo client (post_inbounds body) h =
      Bodies.post_inbounds-KeepsTo p settings headers client body
  handle-KeepsTo client (delete_inbound tag) h =
      Operations.delete_inbound-KeepsTo p settings headers client tag
  handle-KeepsTo client get_outbounds h = Reads.get_outbounds-KeepsTo p settings headers client
  handle-KeepsTo client (post_outbounds body) h =
      Bodies.post_outbounds-KeepsTo p settings headers client body
  handle-KeepsTo client (delete_outbound tag) h =
      Operations.delete_outbound-KeepsTo p settings headers client tag
  handle-KeepsTo client post_logger_restart h =
      Operations.post_logger_restart-KeepsTo p settings headers client
  handle-KeepsTo client (post_routing_test body) h =
      Bodies.post_routing_test-KeepsTo p settings headers client body
  handle-KeepsTo client get_routing_rules h =
      Reads.get_routing_rules-KeepsTo p settings headers client
  handle-KeepsTo client (delete_routing_rule tag) h =
      Operations.delete_routing_rule-KeepsTo p settings headers client tag
  handle-KeepsTo client (get_balancer tag) h =
      Reads.get_balancer-KeepsTo p settings headers client tag
  handle-KeepsTo client (put_balancer tag body) h =
      Bodies.put_balancer-KeepsTo p settings headers client tag body

  -- The answer that a reply leads to.
  abbrev pub Reflects : (e : Endpoint) (rpc : Rpc) → Result (Reply rpc) Status → Answer → Type 0
  Reflects e rpc (ok reply) answer = (r : Response) × (answer ≡ answered r) × Yields e rpc reply r
  Reflects e rpc (err status) answer =
      (¬ (Excuses e × IsMissing p status)
        × (answer ≡ answered (into_response p.unicode (from_status status))))
      ⊎ (Excuses e × IsMissing p status × (r : Response) × (answer ≡ answered r) × Forgives e r)

  respond-Succeeds :
      (S : Response → Type 0) (r : Outcome Response)
      → Succeeds S r
      → (x : Response) × (respond p.unicode r ≡ answered x) × S x
  unfolding respond
  respond-Succeeds S (done x) h = (x, refl, h)
  respond-Succeeds S (fail x) h = absurd h
  respond-Succeeds S (reject status) h = absurd h
  respond-Succeeds S panic h = absurd h

  respond-Reflects :
      (e : Endpoint) (rpc : Rpc) (reply : Result (Reply rpc) Status) (r : Outcome Response)
      → Mirrors p (Excuses e) (Yields e rpc) (Forgives e) reply r
      → Reflects e rpc reply (respond p.unicode r)
  unfolding respond
  respond-Reflects e rpc (ok reply) r h = respond-Succeeds (Yields e rpc reply) r h
  respond-Reflects e rpc (err status) r (inl (other, same)) =
      inl (other, ap (respond p.unicode) same)
  respond-Reflects e rpc (err status) r (inr (x, missing, h)) =
      let (answer, same, forgiven) = respond-Succeeds (Forgives e) r h in
      inr (x, missing, answer, same, forgiven)

  -- A request has all that an RPC needs: it carries the bridge's token, its headers get a client, and
  -- what its path, query and body say is what the endpoint asks an RPC for.
  abbrev pub IsServable : Endpoint → World p → Type 0
  IsServable e w =
      Grants settings headers
      × ((client : Client p) × ((context p settings headers w).0 ≡ done client))
      × ((rpc : Rpc) × Asks p e rpc)

  -- A request to any endpoint but the health check lacks something that an RPC needs, it sends nothing,
  -- and it is answered with an error; or it carries the bridge's token and sends exactly one RPC, the one that its endpoint asks for, with the
  -- client that its headers got, and the node's reply decides the answer. A reply is answered with the
  -- endpoint's status and the JSON that its specification gives for that reply. An error is answered
  -- as itself, unless it would be answered 404 and the endpoint reads a counter, or removes a user and
  -- ignore_missing allows it: then the answer is the counter with the value 0, or a success with a
  -- note.
  pub serve-Reflects :
      (e : Endpoint) (w : World p)
      → e ≢ healthz
      → (((serve p settings headers e w).1.sent ≡ w.sent)
          × IsRefusal p.unicode (serve p settings headers e w).0
          × ¬ IsServable e w)
        ⊎ (Grants settings headers
            × (client : Client p) × (rpc : Rpc) × ((context p settings headers w).0 ≡ done client)
            × Asks p e rpc
            × ((serve p settings headers e w).1.sent ≡ w.sent ++ outgoing p client rpc ∷ [])
            × Reflects e rpc
                (p.nodes w.sent (outgoing p client rpc))
                (serve p settings headers e w).0)
  unfolding serve
  serve-Reflects e w h =
      let k = λ (client : Client p). handle p settings headers (pure p client) e in
      let split = ap (λ m. m w) (handle-context p settings headers (node p headers) e h) in
      elim (bearer_auth-cases p.unicode p.http settings headers) [
        | inr (msg, denied) ↦
            let other = λ (g : Grants settings headers).
              absurd (cc ((bearer_auth-done_iff p.unicode p.http settings headers).1 g, denied)) in
            let (same, refusal) = serve-unauthorized p settings headers e w h other in
            inl (same, refusal, λ (g, got, asked). other g)
        | inl granted ↦ elim (context-cases p settings headers w) [
          | inr (error, failed) ↦
              let run = split ∙ node-fail p settings headers k w failed in
              inl (
                ap (λ r. r.1.sent) run,
                subst (λ r. IsRefusal p.unicode (respond p.unicode r)) (sym (ap (λ r. r.0) run))
                    (respond_refused p.unicode (fail error) tt),
                λ (g, (client, got), asked). cc (failed, got),
              )
          | inl (client, got) ↦
              let run = split ∙ node-done p settings headers k w got in
              elim (handle-KeepsTo client e h (entered p settings headers w)) [
                | inl (same, refused, unready) ↦ inl (
                  ap (λ r. r.1.sent) run ∙ same,
                  subst (λ r. IsRefusal p.unicode (respond p.unicode r)) (sym (ap (λ r. r.0) run))
                      (respond_refused p.unicode _ refused),
                  λ (g, got, (rpc, asked)). unready (g, rpc, asked),
                )
                | inr (rpc, asked, one, mirrors) ↦ inr (
                  (bearer_auth-done_iff p.unicode p.http settings headers).0 granted,
                  client,
                  rpc,
                  got,
                  asked,
                  ap (λ r. r.1.sent) run ∙ one,
                  subst
                      (λ r.
                        Reflects e rpc (p.nodes w.sent (outgoing p client rpc))
                          (respond p.unicode r))
                      (sym (ap (λ r. r.0) run))
                      (respond-Reflects e rpc (p.nodes w.sent (outgoing p client rpc)) _ mirrors),
                )
              ]
        ]
      ]
