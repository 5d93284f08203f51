-- ===== src/Nodes/Eviction.antt =====
-- What a call changes for later calls: the new entry, and the one that the log names as displaced.
use xray_bridge.Prelude.{
  Result-cases, unwrap_or, ℕ, suc, ◌-◌, ◌≤◌, ◌<◌, ◌≡◌, ◌≢◌, refl, sym, ap, ◌∙◌, subst, inl, inr,
  Option, some, none, ok, List, [], ◌∷◌, length, take, get_last?, take_whole, arith, Option-cases,
  Bool-cases, ltb, ite, if_pos, if_neg,
}
use xray_bridge.Text.{Str}
use xray_bridge.Outcome.{done}
use xray_bridge.Extern.Lru.{find, remove}
use xray_bridge.Extern.Transport.{Transport}
use xray_bridge.Nodes.{Key, Key-discrete, XrayClient, Pool, open_channel, displaced, get_or_create}
use xray_bridge.Nodes.Assoc.{
  find-promote, remove_absent, promote_miss, find-take_ne, find-take_last, Distinct,
}
use xray_bridge.Nodes.Invariant.{
  IsValid, get_or_create_hit, get_or_create_fails, get_or_create_miss, fresh,
}

last_cons {ℓ} :
    {A : Type ℓ} (x : A) (m : List A) {a : A} → get_last? m ≡ some a → get_last? (x ∷ m) ≡ some a
last_cons x [] h = absurd (cc)
last_cons x (y ∷ m) h = h

last-some {ℓ} : {A : Type ℓ} (m : List A) → 0 < length m → (a : A) × (get_last? m ≡ some a)
last-some [] h = absurd (omega arith)
last-some (x ∷ []) h = (x, refl)
last-some (x ∷ y ∷ m) h = last-some (y ∷ m) (omega arith)

-- Lists: what putting a new key in front and keeping `cap` entries does to the other keys.
module _ {K V : Type 0} (dec : Discrete K) (k q : K) (v : V) (m : List (K × V))
    (absent : find dec k m ≡ none) (other : q ≢ k) where
  find-put_room :
      (cap : ℕ) → length m < cap → find dec q (take cap ((k, v) ∷ remove dec k m)) ≡ find dec q m
  unfolding find
  find-put_room cap room =
      rw (remove_absent dec k m absent, take_whole ((k, v) ∷ m) cap room, if_neg (dec q k) other)

  find-put_full :
      (w : V) (j : K) (cap : ℕ)
      → length m ≡ cap
      → get_last? m ≡ some (j, w)
      → j ≢ q
      → find dec q (take cap ((k, v) ∷ remove dec k m)) ≡ find dec q m
  unfolding find
  find-put_full w j cap full last kept = rw (remove_absent dec k m absent) (
      find-take_ne dec cap q ((k, v) ∷ m) (ap suc full) w j (last_cons (k, v) m last) kept
      ∙ if_neg (dec q k) other _ _)

  find-put_evicts :
      (w : V) (cap : ℕ)
      → length m ≡ cap
      → get_last? m ≡ some (q, w)
      → Distinct dec m
      → find dec q (take cap ((k, v) ∷ remove dec k m)) ≡ none
  find-put_evicts w cap full last h =
      rw (remove_absent dec k m absent) (
        find-take_last dec cap ((k, v) ∷ m) (ap suc full) w q (last_cons (k, v) m last) (absent, h))

pub Key-option-discrete : Discrete (Option Key)
Key-option-discrete = hlevel Key-discrete

none-ne-some {ℓ} : {A : Type ℓ} (a : A) → ◌≢◌ {A = Option A} none (some a)
none-ne-some a e = cc

module _ (t : Transport) (l : Pool t) (c : l.Cache) where
  displaced_full :
      (e : Key × XrayClient t.Channel)
      → l.cap c ≤ length (l.iter c)
      → get_last? (l.iter c) ≡ some e
      → displaced t l c ≡ some e.0
  unfolding displaced
  displaced_full e full last = rw (l.len_lem c, l.peek_lru_lem c, last, displaced) (ground arith)

  displaced_room : length (l.iter c) < l.cap c → displaced t l c ≡ none
  unfolding displaced
  displaced_room room = rw (l.len_lem c, displaced) (ground arith)

  module _ (domain : Str) (port : ℕ) (token : Str) (name : Option Str) where
    pub iter-miss :
        {channel : t.Channel}
        → find Key-discrete (domain, port, token) (l.iter c) ≡ none
        → open_channel t domain port ≡ ok channel
        → l.iter (get_or_create t l c domain port token name).1
          ≡ take (l.cap c) (
              ((domain, port, token), fresh t l c domain port token name channel)
              ∷ remove Key-discrete (domain, port, token) (l.iter c))
    iter-miss {channel} miss opened =
        let key : Key = (domain, port, token) in
        rw (get_or_create_miss t l c domain port token name miss opened) (
          l.iter-put (l.get c key).1 key (fresh t l c domain port token name channel)
          ∙ rw (l.cap-get c key, l.iter-get c key, promote_miss Key-discrete key (l.iter c) miss))

    module _ (channel : t.Channel) (q : Key) (v : IsValid t l c)
        (miss : find Key-discrete (domain, port, token) (l.iter c) ≡ none)
        (other : q ≢ (domain, port, token)) where
      abbrev Displaces : Type 0
      Displaces =
          find Key-discrete q (
            take (l.cap c) (
              ((domain, port, token), fresh t l c domain port token name channel)
              ∷ remove Key-discrete (domain, port, token) (l.iter c)))
          ≡ ite (Key-option-discrete (displaced t l c) (some q)) none
              (find Key-discrete q (l.iter c))

      displaces_room : length (l.iter c) < l.cap c → Displaces
      displaces_room room = rw (displaced_room room) (
          find-put_room Key-discrete _ q _ (l.iter c) miss other (l.cap c) room
          ∙ sym (if_neg (Key-option-discrete none (some q)) (none-ne-some q) _ _))

      displaces_full :
          (j : Key) (w : XrayClient t.Channel)
          → l.cap c ≤ length (l.iter c)
          → get_last? (l.iter c) ≡ some (j, w)
          → Displaces
      displaces_full j w full last =
          let exact : length (l.iter c) ≡ l.cap c = omega (arith, v.bounded) in
          rw (displaced_full (j, w) full last) (elim (Key-discrete j q) [
            | yes same ↦
                find-put_evicts Key-discrete _ q _ (l.iter c) miss other w (l.cap c) exact
                  (subst (λ x. get_last? (l.iter c) ≡ some (x, w)) same last) v.distinct
                ∙ sym (if_pos (Key-option-discrete (some j) (some q)) (ap some same) _ _)
            | no differs ↦
                find-put_full Key-discrete _ q _ (l.iter c) miss other w j (l.cap c) exact last
                  differs
                ∙ sym (
                    if_neg (Key-option-discrete (some j) (some q))
                      (λ e. differs (ap (λ o. unwrap_or o j) e)) _ _)
          ])

    -- From a valid pool with a capacity above 0, a call that misses and creates a client changes what
    -- the pool holds under another key only if the log named that key as displaced, and then the pool
    -- no longer holds it.
    pub get_or_create-displaces :
        {channel : t.Channel} (q : Key)
        → IsValid t l c
        → 0 < l.cap c
        → find Key-discrete (domain, port, token) (l.iter c) ≡ none
        → open_channel t domain port ≡ ok channel
        → q ≢ (domain, port, token)
        → find Key-discrete q (l.iter (get_or_create t l c domain port token name).1)
          ≡ ite
              (Key-option-discrete (displaced t l c) (some q))
              none
              (find Key-discrete q (l.iter c))
    get_or_create-displaces {channel} q v some_room miss opened other =
        rw (iter-miss miss opened) (elim (Bool-cases (ltb (length (l.iter c)) (l.cap c))) [
          | inl room ↦ displaces_room channel q v miss other (ground arith)
          | inr full ↦
              let full_le : l.cap c ≤ length (l.iter c) = ground arith in
              let (e, last) = last-some (l.iter c) (omega arith) in
              displaces_full channel q v miss other e.0 e.1 full_le last
        ])

    pub stored :
        {client : XrayClient t.Channel} {c' : l.Cache}
        → 0 < l.cap c
        → get_or_create t l c domain port token name ≡ (done client, c')
        → find Key-discrete (domain, port, token) (l.iter c') ≡ some client
    unfolding find
    stored {client} {c'} some_room h =
        let key : Key = (domain, port, token) in
        elim (Option-cases (find Key-discrete key (l.iter c))) [
          | inr (found, hit) ↦
              let run = get_or_create_hit t l c domain port token name hit in
              let same : found ≡ client = cc run in
              let after : (l.get c key).1 ≡ c' = cc run in
              rw (← after, l.iter-get c key, find-promote Key-discrete key key (l.iter c))
                (hit ∙ ap some same)
          | inl miss ↦ elim (Result-cases (open_channel t domain port)) [
            | inl (e, failed) ↦ cc (get_or_create_fails t l c domain port token name miss failed)
            | inr (channel, opened) ↦
                let run = get_or_create_miss t l c domain port token name miss opened in
                let same : fresh t l c domain port token name channel ≡ client = cc run in
                let after : l.iter c'
                    ≡ take (l.cap c) (
                        (key, fresh t l c domain port token name channel)
                        ∷ remove Key-discrete key (l.iter c)) =
                  ap (λ r. l.iter r.1) (sym h) ∙ iter-miss miss opened in
                let some_cap : l.cap c ≡ suc (l.cap c - 1) = omega arith in
                rw (after, some_cap, if_pos (Key-discrete key key) refl) (ap some same)
          ]
        ]
