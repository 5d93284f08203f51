-- ===== src/Xray/Stats/Order.antt =====
-- What the list of users does not depend on.
use xray_bridge.Prelude.{
  In, ok, get_elem?, ◌≡◌, ◌↔◌, inl, inr, refl, ap, ◌∙◌, sym, subst, true, false, some, Option, List,
  [], ◌∷◌, map, All, arith,
}
use xray_bridge.Text.{utf8, Str}
use xray_bridge.Text.Split.{split}
use xray_bridge.Outcome.{done}
use xray_bridge.Proto.{Stat}
use xray_bridge.Grpc.{Rpc}
use xray_bridge.App.{Platform, Client, World, outgoing}
use xray_bridge.Xray.Stats.{separator, list_users, str_lt}
use xray_bridge.Xray.Stats.Users.{IsSorted, list_users-In, str_lt_trans}

str_lt_irrefl : (s : Str) → str_lt s s ≡ true → ⊥
unfolding str_lt
str_lt_irrefl [] h = cc
str_lt_irrefl (a ∷ s) h = ground (arith, str_lt_irrefl s)

All-In : {A : Type 0} (P : A → Type 0) (x : A) (xs : List A) → All P xs → In x xs → P x
All-In P x [] h i = absurd i
All-In P x (y ∷ ys) (here, h) (inl same) = subst P same here
All-In P x (y ∷ ys) (here, h) (inr i) = All-In P x ys h i

-- The first of one sorted list that has the members of another is the first of that.
head-same :
    (x y : Str) (xs ys : List Str)
    → IsSorted (x ∷ xs)
    → IsSorted (y ∷ ys)
    → In x (y ∷ ys)
    → In y (x ∷ xs)
    → x ≡ y
head-same x y xs ys (above, h) (over, k) (inl same) j = sym same
head-same x y xs ys (above, h) (over, k) (inr i) (inl same) = same
head-same x y xs ys (above, h) (over, k) (inr i) (inr j) =
    absurd (str_lt_irrefl x (str_lt_trans x y x (All-In _ y xs above j) (All-In _ x ys over i)))

-- A member of the rest is not the first.
tail-In :
    (x z : Str) (xs ys : List Str)
    → IsSorted (x ∷ xs)
    → (In z (x ∷ xs) → In z (x ∷ ys))
    → In z xs
    → In z ys
tail-In x z xs ys (above, h) f i = elim (f (inr i)) [
  | inl same ↦
      absurd (str_lt_irrefl x (subst (λ s. str_lt x s ≡ true) (sym same) (All-In _ z xs above i)))
  | inr j ↦ j
]

-- A sorted list is determined by its members.
IsSorted-unique :
    (xs ys : List Str) → IsSorted xs → IsSorted ys → ((z : Str) → In z xs ↔ In z ys) → xs ≡ ys
IsSorted-unique [] [] h k same = refl
IsSorted-unique [] (y ∷ ys) h k same = absurd ((same y).1 (inl refl))
IsSorted-unique (x ∷ xs) [] h k same = absurd ((same x).0 (inl refl))
IsSorted-unique (x ∷ xs) (y ∷ ys) h k same =
    let first = head-same x y xs ys h k ((same x).0 (inl refl)) ((same y).1 (inl refl)) in
    let k' : IsSorted (x ∷ ys) = subst (λ s. IsSorted (s ∷ ys)) (sym first) k in
    let same' : (z : Str) → In z (x ∷ xs) ↔ In z (x ∷ ys) =
      subst (λ s. (z : Str) → In z (x ∷ xs) ↔ In z (s ∷ ys)) (sym first) same in
    let rest =
      IsSorted-unique xs ys (h.1) (k'.1)
        (λ z. (tail-In x z xs ys h (same' z).0, tail-In x z ys xs k' (same' z).1)) in
    rw (first, rest) refl

-- The second parts of the names of counters.
abbrev pub second_parts : List Stat → List (Option Str)
second_parts = map (λ s. get_elem? (split separator s.name) 1)

-- The list of users depends only on which second parts the counters of the answers have: whatever
-- nodes answer, and whatever the order of the counters, how often a user occurs among them and the
-- values are, two answers with the same second parts give the same list.
pub list_users_unique :
    (p : Platform) (client client' : Client p) (w w' : World p) {stats stats' : List Stat}
    → p.nodes w.sent (outgoing p client (Rpc.query_stats (utf8 "user>>>") false)) ≡ ok stats
    → p.nodes w'.sent (outgoing p client' (Rpc.query_stats (utf8 "user>>>") false)) ≡ ok stats'
    → ((x : Str) → In (some x) (second_parts stats) ↔ In (some x) (second_parts stats'))
    → (list_users p client w).0 ≡ (list_users p client' w').0
list_users_unique p client client' w w' h h' same =
    let (xs, got, sorted, members) = list_users-In p client w h in
    let (ys, got', sorted', members') = list_users-In p client' w' h' in
    got
    ∙ ap done (
        IsSorted-unique xs ys sorted sorted' (λ z. (
          λ i. (members' z).1 ((same z).0 ((members z).0 i)),
          λ j. (members z).1 ((same z).1 ((members' z).0 j)),
        )))
    ∙ sym got'
