-- ===== src/Routes/Serve/Interleaving.antt =====
-- What holds of requests in flight, however their steps interleave.
use xray_bridge.Prelude.{
  All-append, In, All-imp, ℕ, ◌≡◌, ◌≢◌, ◌≤◌, sym, subst, inl, inr, List, [], ◌∷◌, ◌++◌, All, refl,
}
use xray_bridge.Config.{Settings}
use xray_bridge.Grpc.{Sent, Rpc}
use xray_bridge.Outcome.{done}
use xray_bridge.Auth.Laws.{Grants, bearer_auth-cases, bearer_auth-done_iff}
use xray_bridge.Nodes.{Key-discrete}
use xray_bridge.Nodes.Assoc.{Distinct}
use xray_bridge.Nodes.Invariant.{Reachable, start}
use xray_bridge.Nodes.Isolation.{Reachable-bounded}
use xray_bridge.App.{Platform, World, outgoing}
use xray_bridge.Routes.Serve.{healthz}
use xray_bridge.Routes.Serve.Guarded.{context}
use xray_bridge.Routes.Serve.Endpoints.{handle-Gated}
use xray_bridge.Routes.Serve.Laws.{Delivers, Delivers-client, node_context-Reachable}
use xray_bridge.Routes.Serve.Talk.Spec.{Asks}
use xray_bridge.Routes.Serve.Talk.Laws.{handle-KeepsTo}
use xray_bridge.Routes.Serve.Flight.{
  Arrival, InFlight, Server, Step, enters, fails, finishes, leaves, finish, Reach, boot, step,
}

pub All-pick {ℓ κ} :
    {A : Type ℓ} (P : A → Type κ) (before : List A) (a : A) (after : List A)
    → All P (before ++ a ∷ after)
    → P a × All P (before ++ after)
All-pick P [] a after (here, h) = (here, h)
All-pick P (b ∷ before) a after (here, h) =
    let (found, rest) = All-pick P before a after h in (found, (here, rest))

module _ (p : Platform) (settings : Settings) where
  -- A waiting request has the client that its headers got from the pool, as it was then.
  abbrev pub HasOwnClient : ℕ → InFlight p → Type 0
  HasOwnClient n f =
      (w : World p) × Reachable p.transport p.lru n w.pool
      × ((context p settings f.headers w).0 ≡ done f.client)

  own-Delivers :
      {n : ℕ} (f : InFlight p)
      → HasOwnClient n f
      → (rpc : Rpc) → Delivers p settings f.headers (outgoing p f.client rpc)
  own-Delivers f (w, r, got) rpc = Delivers-client p settings w f.headers f.client rpc r got

  abbrev pub IsWaiting : ℕ → List Arrival → InFlight p → Type 0
  IsWaiting n asked f = In (f.headers, f.endpoint) asked × (f.endpoint ≢ healthz) × HasOwnClient n f

  -- One of the requests that have come carries the bridge's token, its headers name the node that the
  -- RPC goes to and the token that it carries, and its endpoint asks for the RPC.
  abbrev pub IsNamed : List Arrival → Sent p.transport.Channel → Type 0
  IsNamed asked call =
      (arrival : Arrival) × In arrival asked
      × Grants settings arrival.0
      × Delivers p settings arrival.0 call
      × Asks p arrival.1 call.rpc

  pub record Inv (n : ℕ) (s : Server p) : Type 0 where
    pool : Reachable p.transport p.lru n s.world.pool
    sent : All (IsNamed s.asked) s.world.sent
    pub clients : All (IsWaiting n s.asked) s.waiting

  Inv-finish :
      {n : ℕ} (asked : List Arrival) (f : InFlight p) (w : World p)
      → IsWaiting n asked f
      → All (IsNamed asked) w.sent
      → All (IsNamed asked) (finish p settings f w).sent
  Inv-finish asked f w (came, e, own) h =
      elim (bearer_auth-cases p.unicode p.http settings f.headers) [
        | inr (msg, denied) ↦
            let same =
              (handle-Gated p settings f.headers f.endpoint e).refused
                (λ g. cc ((bearer_auth-done_iff p.unicode p.http settings f.headers).1 g)) f.client
                w in
            rw (same.0) h
        | inl granted ↦ elim (handle-KeepsTo p settings f.headers f.client f.endpoint e w) [
          | inl (same, refused, unready) ↦ rw same h
          | inr (rpc, asks, one, mirrors) ↦ rw one (
              All-append (IsNamed asked) w.sent (outgoing p f.client rpc ∷ []) h (
                (
                  (f.headers, f.endpoint),
                  came,
                  (bearer_auth-done_iff p.unicode p.http settings f.headers).0 granted,
                  own-Delivers f own rpc,
                  asks,
                ),
                tt,
              ))
        ]
      ]

  -- More requests have come.
  All-IsNamed :
      (arrival : Arrival) (asked : List Arrival) (calls : List (Sent p.transport.Channel))
      → All (IsNamed asked) calls
      → All (IsNamed (arrival ∷ asked)) calls
  All-IsNamed arrival asked =
      All-imp (IsNamed asked) (IsNamed (arrival ∷ asked))
        (λ call (x, i, g, d, k). (x, inr i, g, d, k))

  All-later :
      (n : ℕ) (arrival : Arrival) (asked : List Arrival) (waiting : List (InFlight p))
      → All (IsWaiting n asked) waiting
      → All (IsWaiting n (arrival ∷ asked)) waiting
  All-later n arrival asked =
      All-imp (IsWaiting n asked) (IsWaiting n (arrival ∷ asked))
        (λ f (i, other, own). (inr i, other, own))

  Step-Inv : {n : ℕ} {s t : Server p} → Inv n s → Step p settings s t → Inv n t
  Step-Inv {n} inv (enters s headers e client other got) = record {
    pool = node_context-Reachable p settings headers inv.pool;
    sent = All-IsNamed (headers, e) s.asked s.world.sent inv.sent;
    clients = (
      (inl refl, other, (s.world, inv.pool, got)),
      All-later n (headers, e) s.asked s.waiting inv.clients,
    );
  }
  Step-Inv {n} inv (fails s headers e) = record {
    pool = node_context-Reachable p settings headers inv.pool;
    sent = All-IsNamed (headers, e) s.asked s.world.sent inv.sent;
    clients = All-later n (headers, e) s.asked s.waiting inv.clients;
  }
  Step-Inv {n} inv (finishes w asked before f after) =
      let ((came, other, own), rest) = All-pick _ before f after inv.clients in
      let gated = handle-Gated p settings f.headers f.endpoint other in
      record {
        pool = subst (Reachable p.transport p.lru n) (sym (gated.calls f.client w).0.0) inv.pool;
        sent = Inv-finish asked f w (came, other, own) inv.sent;
        clients = rest;
      }
  Step-Inv inv (leaves w asked before f after) = record {
    pool = inv.pool;
    sent = inv.sent;
    clients = (All-pick _ before f after inv.clients).1;
  }

  pub Reach-Inv : {n : ℕ} {s : Server p} → Reach p settings n s → Inv n s
  Reach-Inv boot = record { pool = start; sent = tt; clients = tt }
  Reach-Inv (step r st) = Step-Inv (Reach-Inv r) st

  -- However the requests interleave, the pool keeps to its capacity and holds no key twice, and every
  -- RPC that was sent was named by one of the requests that have come: that request carries the
  -- bridge's token, its endpoint asks for the RPC, and the RPC's channel opens to the node in that
  -- request's own headers and carries the token in them.
  pub Reach-safe :
      {n : ℕ} {s : Server p}
      → Reach p settings n s
      → (p.lru.len s.world.pool ≤ n)
        × Distinct Key-discrete (p.lru.iter s.world.pool)
        × All (IsNamed s.asked) s.world.sent
  Reach-safe r =
      let inv = Reach-Inv r in
      let (bounded, distinct) = Reachable-bounded p.transport p.lru inv.pool in
      (bounded, distinct, inv.sent)
