-- ===== src/Nodes/Recency.antt =====
-- How long a client stays in the pool.
use xray_bridge.Prelude.{
  take-take, ℕ, zero, suc, ◌+◌, ◌<◌, ◌≤◌, ◌≡◌, ◌≢◌, refl, sym, ap, ◌∙◌, subst, inl, inr, Option,
  some, Option-cases, Result-cases, List, [], ◌∷◌, length, take, arith, if_pos,
}
use xray_bridge.Text.{Str}
use xray_bridge.Outcome.{Outcome, done}
use xray_bridge.Extern.Transport.{Transport}
use xray_bridge.Extern.Lru.{find, remove, promote}
use xray_bridge.Nodes.{Key, Key-discrete, Pool, XrayClient, open_channel, get_or_create}
use xray_bridge.Nodes.Assoc.{promote_hit, promote_miss}
use xray_bridge.Nodes.Eviction.{iter-miss}
use xray_bridge.Nodes.Invariant.{
  get_or_create_hit, get_or_create_fails, get_or_create_miss, get_or_create-cap, fresh,
}

module _ {K V : Type 0} (dec : Discrete K) where
  -- The key is found among the first entries.
  abbrev pub Within : ℕ → K → V → List (K × V) → Type 0
  Within i k v m = find dec k (take i m) ≡ some v

  Within-suc : (i : ℕ) (k : K) (v : V) (m : List (K × V)) → Within i k v m → Within (suc i) k v m
  unfolding find
  Within-suc zero k v m h = cc
  Within-suc (suc i) k v [] h = h
  Within-suc (suc i) k v ((a, x) ∷ m) h = ground (arith, Within-suc i k v m)

  Within-remove :
      (i : ℕ) (j k : K) (v : V) (m : List (K × V))
      → j ≢ k
      → Within i k v m
      → Within i k v (remove dec j m)
  unfolding find remove
  Within-remove zero j k v m h w = w
  Within-remove (suc i) j k v [] h w = w
  Within-remove (suc i) j k v ((a, x) ∷ m) h w =
      ground (arith, Within-remove i j k v m h, Within-suc i k v m)

  Within-find : (i : ℕ) (k : K) (v : V) (m : List (K × V)) → Within i k v m → find dec k m ≡ some v
  unfolding find
  Within-find zero k v m h = cc
  Within-find (suc i) k v [] h = h
  Within-find (suc i) k v ((a, x) ∷ m) h = ground (arith, Within-find i k v m)

  -- An entry that comes to the front pushes another one back by one place at most.
  Within-front :
      (i : ℕ) (j k : K) (w v : V) (m : List (K × V))
      → j ≢ k
      → Within i k v m
      → Within (suc i) k v ((j, w) ∷ remove dec j m)
  unfolding find
  Within-front i j k w v m h within = ground (arith, Within-remove i j k v m h within)

  Within-promote :
      (i : ℕ) (j k : K) (v : V) (m : List (K × V))
      → Within i k v m
      → Within (suc i) k v (promote dec j m)
  unfolding find
  Within-promote i j k v m within = elim (Option-cases (find dec j m)) [
    | inl miss ↦ rw (promote_miss dec j m miss) (Within-suc i k v m within)
    | inr (w, hit) ↦ elim (dec j k) [
      | no other ↦ rw (promote_hit dec j m hit) (Within-front i j k w v m other within)
      | yes same ↦
          let found : some w ≡ some v =
            sym hit ∙ ap (λ x. find dec x m) same ∙ Within-find i k v m within in
          rw (promote_hit dec j m hit) (ground (arith, found, same))
    ]
  ]

-- A call of the pool: domain, port, token and label.
pub record Call : Type 0 where
  pub domain : Str
  pub port : ℕ
  pub token : Str
  pub name : Option Str

module _ (t : Transport) (l : Pool t) where
  abbrev pub asks : l.Cache → Call → l.Cache
  asks c a = (get_or_create t l c a.domain a.port a.token a.name).1

  pub calls : List Call → l.Cache → l.Cache
  calls [] c = c
  calls (a ∷ rest) c = calls rest (asks c a)

  -- A call pushes an entry back by one place at most, and drops none of the first ones.
  Within-asks :
      (i : ℕ) (k : Key) (client : XrayClient t.Channel) (c : l.Cache) (a : Call)
      → suc i ≤ l.cap c
      → Within Key-discrete i k client (l.iter c)
      → Within Key-discrete (suc i) k client (l.iter (asks c a))
  Within-asks i k client c a room within =
      let key : Key = (a.domain, a.port, a.token) in
      let moved : Within Key-discrete (suc i) k client (l.iter (l.get c key).1) =
        rw (l.iter-get c key) (Within-promote Key-discrete i key k client (l.iter c) within) in
      let Kept : Outcome (XrayClient t.Channel) × l.Cache → Type 0 =
        λ r. Within Key-discrete (suc i) k client (l.iter r.1) in
      elim (Option-cases (find Key-discrete key (l.iter c))) [
        | inr (found, hit) ↦
            subst Kept (sym (get_or_create_hit t l c a.domain a.port a.token a.name hit)) moved
        | inl miss ↦ elim (Result-cases (open_channel t a.domain a.port)) [
          | inl (e, failed) ↦
              subst Kept
                (sym (get_or_create_fails t l c a.domain a.port a.token a.name miss failed)) moved
          | inr (channel, opened) ↦ elim (Key-discrete key k) [
            | yes same ↦ cc (
              Within-find Key-discrete i k client (l.iter c) within,
              ap (λ x. find Key-discrete x (l.iter c)) same,
              miss,
            )
            | no other ↦
                let new = fresh t l c a.domain a.port a.token a.name channel in
                let after : l.iter (asks c a)
                    ≡ take (l.cap c) ((key, new) ∷ remove Key-discrete key (l.iter c)) =
                  iter-miss t l c a.domain a.port a.token a.name miss opened in
                subst (Within Key-discrete (suc i) k client) (sym after) (
                  rw
                    (take-take (suc i) (l.cap c) ((key, new) ∷ remove Key-discrete key (l.iter c))
                      room)
                    (Within-front Key-discrete i key k new client (l.iter c) other within))
          ]
        ]
      ]

  Within-calls :
      (i : ℕ) (k : Key) (client : XrayClient t.Channel) (c : l.Cache) (later : List Call)
      → i + length later ≤ l.cap c
      → Within Key-discrete i k client (l.iter c)
      → find Key-discrete k (l.iter (calls later c)) ≡ some client
  unfolding calls
  Within-calls i k client c [] room within = Within-find Key-discrete i k client (l.iter c) within
  Within-calls i k client c (a ∷ later) room within =
      let kept = get_or_create-cap t l c a.domain a.port a.token a.name in
      Within-calls (suc i) k client (asks c a) later (omega (arith, kept, room))
        (Within-asks i k client c a (omega (arith, room)) within)

  module _ (c : l.Cache) (domain : Str) (port : ℕ) (token : Str) (name : Option Str) where
    Within-stored :
        {client : XrayClient t.Channel} {c' : l.Cache}
        → 0 < l.cap c
        → get_or_create t l c domain port token name ≡ (done client, c')
        → Within Key-discrete 1 (domain, port, token) client (l.iter c')
    unfolding find
    Within-stored {client} {c'} some_room h =
        let key : Key = (domain, port, token) in
        elim (Option-cases (find Key-discrete key (l.iter c))) [
          | inr (found, hit) ↦
              let run = get_or_create_hit t l c domain port token name hit in
              let same : found ≡ client = cc run in
              let after : (l.get c key).1 ≡ c' = cc run in
              rw
                (
                  ← after,
                  l.iter-get c key,
                  promote_hit Key-discrete key (l.iter c) hit,
                  if_pos (Key-discrete key key) refl,
                )
                (ap some same)
          | inl miss ↦ elim (Result-cases (open_channel t domain port)) [
            | inl (e, failed) ↦ cc (get_or_create_fails t l c domain port token name miss failed)
            | inr (channel, opened) ↦
                let new = fresh t l c domain port token name channel in
                let same : new ≡ client =
                  cc (get_or_create_miss t l c domain port token name miss opened) in
                let after =
                  ap (λ r. l.iter r.1) (sym h)
                  ∙ iter-miss t l c domain port token name miss opened in
                rw
                  (
                    after,
                    take-take 1 (l.cap c) ((key, new) ∷ remove Key-discrete key (l.iter c))
                        (omega arith),
                    if_pos (Key-discrete key key) refl,
                  )
                  (ap some same)
          ]
        ]

    -- A client that was handed out is still handed out, as the same value, after any calls fewer than
    -- the capacity: whatever they ask for, they cannot push it out.
    pub get_or_create-survives :
        {client : XrayClient t.Channel} {c' : l.Cache} (later : List Call) (name' : Option Str)
        → length later < l.cap c
        → get_or_create t l c domain port token name ≡ (done client, c')
        → (get_or_create t l (calls later c') domain port token name').0 ≡ done client
    get_or_create-survives {client} {c'} later name' few h =
        let kept : l.cap c' ≡ l.cap c =
          ap (λ r. l.cap r.1) (sym h) ∙ get_or_create-cap t l c domain port token name in
        ap (λ r. r.0)
          (get_or_create_hit t l (calls later c') domain port token name' (
            Within-calls 1 (domain, port, token) client c' later (omega (arith, kept, few))
              (Within-stored (omega (arith, few)) h)))
