-- ===== src/Xray/Stats/Users.antt =====
-- `list_users`: the set of ids.
use xray_bridge.Prelude.{
  In, ok, get_elem?, ◌≡◌, ◌⊎◌, ◌↔◌, inl, inr, refl, ap, true, false, some, List, [], ◌∷◌, map, All,
  arith, Bool-cases, Option-cases,
}
use xray_bridge.Text.{utf8, Str, str_eq}
use xray_bridge.Text.Laws.{str_eq_iff}
use xray_bridge.Text.Split.{split}
use xray_bridge.Outcome.{done}
use xray_bridge.Proto.{Stat}
use xray_bridge.Grpc.{Rpc}
use xray_bridge.App.{Platform, Client, World, outgoing, call, send}
use xray_bridge.Xray.Stats.{
  separator, parse_stat_name, stat_record, list_users, StatRecord, str_lt, insert, collect_ids,
}

-- In strictly increasing order, hence without duplicates.
abbrev pub IsSorted : List Str → Type 0
IsSorted [] = Unit
IsSorted (x ∷ xs) = All (λ y. str_lt x y ≡ true) xs × IsSorted xs

pub str_lt_trans : (s t r : Str) → str_lt s t ≡ true → str_lt t r ≡ true → str_lt s r ≡ true
unfolding str_lt
str_lt_trans [] [] r h k = absurd (cc)
str_lt_trans [] (b ∷ t) [] h k = absurd (cc)
str_lt_trans [] (b ∷ t) (c ∷ r) h k = refl
str_lt_trans (a ∷ s) [] r h k = absurd (cc)
str_lt_trans (a ∷ s) (b ∷ t) [] h k = absurd (cc)
str_lt_trans (a ∷ s) (b ∷ t) (c ∷ r) h k = ground (arith, str_lt_trans s t r)

str_lt_total : (s t : Str) → str_lt s t ≡ false → str_eq s t ≡ false → str_lt t s ≡ true
unfolding str_lt str_eq
str_lt_total [] [] h k = absurd (cc)
str_lt_total [] (b ∷ t) h k = absurd (cc)
str_lt_total (a ∷ s) [] h k = refl
str_lt_total (a ∷ s) (b ∷ t) h k = ground (arith, str_lt_total s t)

insert-In : (x z : Str) (ys : List Str) → In z (insert x ys) ↔ ((x ≡ z) ⊎ In z ys)
unfolding insert
insert-In x z [] = ground arith
insert-In x z (y ∷ ys) = ground (arith, insert-In x z ys, str_eq_iff x y)

All-insert :
    (y x : Str) (ys : List Str)
    → str_lt y x ≡ true
    → All (λ z. str_lt y z ≡ true) ys
    → All (λ z. str_lt y z ≡ true) (insert x ys)
unfolding insert
All-insert y x [] lt h = (lt, tt)
All-insert y x (z ∷ ys) lt (here, h) = ground (arith, All-insert y x ys lt h)

All-trans :
    (x y : Str) (ys : List Str)
    → str_lt x y ≡ true
    → All (λ z. str_lt y z ≡ true) ys
    → All (λ z. str_lt x z ≡ true) ys
All-trans x y [] lt h = tt
All-trans x y (z ∷ ys) lt (here, h) = (str_lt_trans x y z lt here, All-trans x y ys lt h)

insert-IsSorted : (x : Str) (ys : List Str) → IsSorted ys → IsSorted (insert x ys)
unfolding insert
insert-IsSorted x [] h = (tt, tt)
insert-IsSorted x (y ∷ ys) (above, h) = elim (Bool-cases (str_lt x y)) [
  | inl less ↦ rw less ((less, All-trans x y ys less above), (above, h))
  | inr more ↦ elim (Bool-cases (str_eq x y)) [
    | inl same ↦ rw (more, same) (above, h)
    | inr other ↦
        rw (more, other)
          (All-insert y x ys (str_lt_total x y more other) above, insert-IsSorted x ys h)
  ]
]

collect_ids-IsSorted :
    (emails : List Str) (recs : List StatRecord)
    → IsSorted emails
    → IsSorted (collect_ids emails recs)
unfolding collect_ids
collect_ids-IsSorted emails [] h = h
collect_ids-IsSorted emails (rec ∷ recs) h = elim (Option-cases rec.id) [
  | inl missing ↦ rw (missing, collect_ids) (collect_ids-IsSorted emails recs h)
  | inr (email, found) ↦
      rw (found, collect_ids)
        (collect_ids-IsSorted (insert email emails) recs (insert-IsSorted email emails h))
]

-- An email that was there or that is the id of a record.
collect_ids-In :
    (emails : List Str) (recs : List StatRecord) (x : Str)
    → In x (collect_ids emails recs) ↔ (In x emails ⊎ In (some x) (map (λ r. r.id) recs))
unfolding collect_ids
collect_ids-In emails [] x = ground arith
collect_ids-In emails (rec ∷ recs) x = elim (Option-cases rec.id) [
  | inl missing ↦ rw missing (ground (arith, collect_ids-In emails recs x))
  | inr (email, found) ↦
      rw found
        (ground (arith, collect_ids-In (insert email emails) recs x, insert-In email x emails))
]

ids :
    (stats : List Stat)
    → map (λ r. r.id) (map stat_record stats)
      ≡ map (λ s. get_elem? (split separator s.name) 1) stats
unfolding stat_record parse_stat_name
ids [] = refl
ids (s ∷ stats) = ap (◌∷◌ (get_elem? (split separator s.name) 1)) (ids stats)

or_false : {A B : Type 0} → A ↔ (⊥ ⊎ B) → A ↔ B
or_false e = (λ a. elim (e.0 a) [ inl h ↦ absurd h | inr b ↦ b ], λ b. e.1 (inr b))

-- The list is in strictly increasing order, and an email stands in it exactly when it is the second
-- part of the name of a counter.
abbrev pub IsUsers : List Stat → List Str → Type 0
IsUsers stats emails =
    IsSorted emails
    × ((x : Str)
        → In x emails ↔ In (some x) (map (λ s. get_elem? (split separator s.name) 1) stats))

pub collect_ids-IsUsers :
    (stats : List Stat) → IsUsers stats (collect_ids [] (map stat_record stats))
collect_ids-IsUsers stats = (
  collect_ids-IsSorted [] (map stat_record stats) tt,
  λ x. rw (← ids stats) (or_false (collect_ids-In [] (map stat_record stats) x)),
)

-- When the node answers the query, the list is in strictly increasing order, and an email stands in
-- it exactly when it is the second part of the name of a counter in the answer, whatever the first
-- part is.
pub list_users-In :
    (p : Platform) (client : Client p) (w : World p) {stats : List Stat}
    → p.nodes w.sent (outgoing p client (Rpc.query_stats (utf8 "user>>>") false)) ≡ ok stats
    → (emails : List Str) × ((list_users p client w).0 ≡ done emails)
      × IsSorted emails
      × ((x : Str)
          → In x emails ↔ In (some x) (map (λ s. get_elem? (split separator s.name) 1) stats))
unfolding list_users send call
list_users-In p client w {stats} h = (
  collect_ids [] (map stat_record stats),
  rw h,
  (collect_ids-IsUsers stats).0,
  (collect_ids-IsUsers stats).1,
)
