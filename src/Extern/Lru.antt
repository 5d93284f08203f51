-- ===== src/Extern/Lru.antt =====
-- The `lru` crate, seen through `iter`, which visits the entries from the most to the least recently
-- used one.
use xray_bridge.Prelude.{ℕ, ◌≡◌, ite, Option, none, some, List, [], ◌∷◌, length, take, get_last?}

module _ {K V : Type 0} (dec : Discrete K) where
  unfoldable pub find : K → List (K × V) → Option V
  find k [] = none
  find k ((j, v) ∷ m) = ite (dec k j) (some v) (find k m)

  unfoldable pub remove : K → List (K × V) → List (K × V)
  remove k [] = []
  remove k ((j, v) ∷ m) = ite (dec k j) m ((j, v) ∷ remove k m)

  -- What a lookup does to the order: the entry that it finds moves to the front.
  unfoldable pub promote : K → List (K × V) → List (K × V)
  promote k m = elim (find k m) [ none ↦ m | some v ↦ (k, v) ∷ remove k m ]

pub record Lru (K V : Type 0) (dec : Discrete K) : Type 1 where
  pub Cache : Type 0
  pub new : ℕ → Cache
  pub get : Cache → K → Option V × Cache
  pub put : Cache → K → V → Cache
  pub len : Cache → ℕ
  pub cap : Cache → ℕ
  pub peek_lru : Cache → Option (K × V)
  pub iter : Cache → List (K × V)
  pub iter-new : (n : ℕ) → iter (new n) ≡ []
  pub cap-new : (n : ℕ) → cap (new n) ≡ n
  pub get_found : (c : Cache) (k : K) → (get c k).0 ≡ find dec k (iter c)
  pub iter-get : (c : Cache) (k : K) → iter (get c k).1 ≡ promote dec k (iter c)
  pub cap-get : (c : Cache) (k : K) → cap (get c k).1 ≡ cap c
  pub iter-put :
      (c : Cache) (k : K) (v : V) → iter (put c k v) ≡ take (cap c) ((k, v) ∷ remove dec k (iter c))
  pub cap-put : (c : Cache) (k : K) (v : V) → cap (put c k v) ≡ cap c
  pub len_lem : (c : Cache) → len c ≡ length (iter c)
  pub peek_lru_lem : (c : Cache) → peek_lru c ≡ get_last? (iter c)
