-- ===== src/Nodes/Assoc.antt =====
-- Association lists under the operations of the pool.
use xray_bridge.Prelude.{
  ℕ, zero, suc, ◌+◌, ◌≤◌, ◌≡◌, ◌≢◌, refl, inl, inr, if_neg, none, some, List, [], ◌∷◌, length, take,
  get_last?, All, arith, Option-cases, subst, sym,
}
use xray_bridge.Extern.Lru.{find, remove, promote}

module _ {K V : Type 0} (dec : Discrete K) where
  -- No key twice.
  abbrev pub Distinct : List (K × V) → Type 0
  Distinct [] = Unit
  Distinct ((k, v) ∷ m) = (find dec k m ≡ none) × Distinct m

  pub find-remove_ne :
      (k q : K) (m : List (K × V)) → q ≢ k → find dec q (remove dec k m) ≡ find dec q m
  unfolding find remove
  find-remove_ne k q [] h = refl
  find-remove_ne k q ((j, v) ∷ m) h = ground (arith, find-remove_ne k q m)

  pub remove_absent : (k : K) (m : List (K × V)) → find dec k m ≡ none → remove dec k m ≡ m
  unfolding find remove
  remove_absent k [] h = refl
  remove_absent k ((j, v) ∷ m) h = ground (arith, remove_absent k m)

  pub find-remove_self :
      (k : K) (m : List (K × V)) → Distinct m → find dec k (remove dec k m) ≡ none
  unfolding find remove
  find-remove_self k [] h = refl
  find-remove_self k ((j, v) ∷ m) (absent, h) = ground (arith, find-remove_self k m h)

  find-remove-none :
      (k q : K) (m : List (K × V)) → find dec q m ≡ none → find dec q (remove dec k m) ≡ none
  unfolding find remove
  find-remove-none k q [] h = refl
  find-remove-none k q ((j, v) ∷ m) h = ground (arith, find-remove-none k q m)

  pub Distinct-remove : (k : K) (m : List (K × V)) → Distinct m → Distinct (remove dec k m)
  unfolding remove
  Distinct-remove k [] h = tt
  Distinct-remove k ((j, v) ∷ m) (absent, h) =
      ground (arith, Distinct-remove k m h, find-remove-none k j m absent)

  find-take-none :
      (n : ℕ) (q : K) (m : List (K × V)) → find dec q m ≡ none → find dec q (take n m) ≡ none
  unfolding find
  find-take-none zero q m h = refl
  find-take-none (suc n) q [] h = refl
  find-take-none (suc n) q ((j, v) ∷ m) h = ground (arith, find-take-none n q m)

  pub Distinct-take : (n : ℕ) (m : List (K × V)) → Distinct m → Distinct (take n m)
  Distinct-take zero m h = tt
  Distinct-take (suc n) [] h = tt
  Distinct-take (suc n) ((j, v) ∷ m) (absent, h) =
      (find-take-none n j m absent, Distinct-take n m h)

  pub length-remove-le : (k : K) (m : List (K × V)) → length (remove dec k m) ≤ length m
  unfolding remove
  length-remove-le k [] = omega arith
  length-remove-le k ((j, v) ∷ m) = ground (arith, length-remove-le k m)

  pub length-remove :
      (k : K) (m : List (K × V)) {v : V}
      → find dec k m ≡ some v
      → length (remove dec k m) + 1 ≡ length m
  unfolding find remove
  length-remove k [] h = absurd (cc)
  length-remove k ((j, w) ∷ m) {v} h = ground (arith, length-remove k m {v = v})

  pub promote_miss : (k : K) (m : List (K × V)) → find dec k m ≡ none → promote dec k m ≡ m
  unfolding promote
  promote_miss k m h = rw (h, promote)

  pub promote_hit :
      (k : K) (m : List (K × V)) {v : V}
      → find dec k m ≡ some v
      → promote dec k m ≡ (k, v) ∷ remove dec k m
  unfolding promote
  promote_hit k m h = rw (h, promote)

  -- Moving an entry to the front changes no lookup.
  pub find-promote : (k q : K) (m : List (K × V)) → find dec q (promote dec k m) ≡ find dec q m
  unfolding find
  find-promote k q m = elim (Option-cases (find dec k m)) [
    | inl miss ↦ rw (promote_miss k m miss)
    | inr (v, hit) ↦ rw (promote_hit k m hit) (ground (arith, find-remove_ne k q m))
  ]

  pub length-promote : (k : K) (m : List (K × V)) → length (promote dec k m) ≡ length m
  length-promote k m = elim (Option-cases (find dec k m)) [
    | inl miss ↦ rw (promote_miss k m miss)
    | inr (v, hit) ↦ rw (promote_hit k m hit) (omega (arith, length-remove k m hit))
  ]

  pub Distinct-promote : (k : K) (m : List (K × V)) → Distinct m → Distinct (promote dec k m)
  Distinct-promote k m h = elim (Option-cases (find dec k m)) [
    | inl miss ↦ rw (promote_miss k m miss) h
    | inr (v, hit) ↦ rw (promote_hit k m hit) (find-remove_self k m h, Distinct-remove k m h)
  ]

  -- A property of entries that holds of all holds of the one that is found.
  module _ (P : K × V → Type 0) where
    pub find-All : (k : K) (m : List (K × V)) {v : V} → All P m → find dec k m ≡ some v → P (k, v)
    unfolding find
    find-All k [] h e = absurd (cc)
    find-All k ((j, w) ∷ m) {v} h e = elim (dec k j) [
      | yes p ↦
          let same : w ≡ v = ground arith in
          subst (λ x. P (k, x)) same (subst (λ x. P (x, w)) (sym p) h.0)
      | no p ↦ find-All k m h.1 (rw (if_neg _ p) at e)
    ]

    pub All-remove : (k : K) (m : List (K × V)) → All P m → All P (remove dec k m)
    unfolding remove
    All-remove k [] h = tt
    All-remove k ((j, w) ∷ m) (p, h) = ground (arith, All-remove k m h)

    pub All-take : (n : ℕ) (m : List (K × V)) → All P m → All P (take n m)
    All-take zero m h = tt
    All-take (suc n) [] h = tt
    All-take (suc n) (e ∷ m) (p, h) = (p, All-take n m h)

    pub All-promote : (k : K) (m : List (K × V)) → All P m → All P (promote dec k m)
    All-promote k m h = elim (Option-cases (find dec k m)) [
      | inl miss ↦ rw (promote_miss k m miss) h
      | inr (v, hit) ↦ rw (promote_hit k m hit) (find-All k m h hit, All-remove k m h)
    ]

  -- Dropping the last entry of a list that is one too long hides the last key, and no other.
  pub find-take_ne :
      (n : ℕ) (q : K) (m : List (K × V))
      → length m ≡ suc n
      → (v : V) (j : K) → get_last? m ≡ some (j, v)
      → j ≢ q
      → find dec q (take n m) ≡ find dec q m
  unfolding find
  find-take_ne n q [] l v j last other = absurd (omega arith)
  find-take_ne zero q ((i, w) ∷ []) l v j last other = ground arith
  find-take_ne (suc n) q ((i, w) ∷ []) l v j last other = absurd (omega arith)
  find-take_ne zero q (e ∷ f ∷ m) l v j last other = absurd (omega arith)
  find-take_ne (suc n) q ((i, w) ∷ f ∷ m) l v j last other =
      ground (arith, find-take_ne n q (f ∷ m) (omega arith) v j last other)

  find-ne-none_of_last :
      (m : List (K × V)) (v : V) (j : K) → get_last? m ≡ some (j, v) → find dec j m ≢ none
  unfolding find
  find-ne-none_of_last [] v j last = cc
  find-ne-none_of_last ((i, w) ∷ []) v j last = ground arith
  find-ne-none_of_last ((i, w) ∷ f ∷ m) v j last =
      ground (arith, find-ne-none_of_last (f ∷ m) v j last)

  pub find-take_last :
      (n : ℕ) (m : List (K × V))
      → length m ≡ suc n
      → (v : V) (j : K) → get_last? m ≡ some (j, v)
      → Distinct m
      → find dec j (take n m) ≡ none
  unfolding find
  find-take_last n [] l v j last h = absurd (omega arith)
  find-take_last zero (e ∷ []) l v j last h = refl
  find-take_last (suc n) ((i, w) ∷ []) l v j last h = absurd (omega arith)
  find-take_last zero (e ∷ f ∷ m) l v j last h = absurd (omega arith)
  find-take_last (suc n) ((i, w) ∷ f ∷ m) l v j last (absent, h) = ground (
    arith,
    find-take_last n (f ∷ m) (omega arith) v j last h,
    find-ne-none_of_last (f ∷ m) v j last,
  )
