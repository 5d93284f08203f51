-- ===== src/Error/Reference.antt =====
-- The table of errors in README.md, and which answers are in it.
use xray_bridge.Prelude.{
  ℕ, Bool, true, false, ◌&&◌, ◌||◌, ◌≡◌, ◌↔◌, ◌==◌, refl, inl, inr, some, none, List, [], ◌∷◌,
  and_then, Bool-cases,
}
use xray_bridge.Text.{Str, utf8, str_eq, contains}
use xray_bridge.Text.Laws.{Occurs, contains_iff}
use xray_bridge.Json.{get, as_str}
use xray_bridge.Extern.Unicode.{Unicode}
use xray_bridge.Error.{Code, code_name, grpc_code_to_http, AppError, Response, into_response}

-- The status and the code of each row.
abbrev pub error_reference : List (ℕ × Str)
error_reference =
    (400, utf8 "INVALID_ARGUMENT")
    ∷ (401, utf8 "UNAUTHENTICATED")
    ∷ (404, utf8 "NOT_FOUND")
    ∷ (404, utf8 "UNKNOWN")
    ∷ (409, utf8 "ALREADY_EXISTS")
    ∷ (422, utf8 "INVALID_ARGUMENT")
    ∷ (501, utf8 "UNIMPLEMENTED")
    ∷ (502, utf8 "UNAVAILABLE")
    ∷ (502, utf8 "UNKNOWN")
    ∷ (500, utf8 "INTERNAL_ERROR")
    ∷ []

unfoldable pub is_row : ℕ → Str → List (ℕ × Str) → Bool
is_row status code [] = false
is_row status code ((status', code') ∷ rows) =
    ((status == status') && str_eq code code') || is_row status code rows

-- The status and the code of an answer stand in one row.
unfoldable pub is_documented : Response → Bool
unfolding is_row
is_documented r = elim (and_then (get r.body (utf8 "code")) as_str) [
  | none ↦ false
  | some code ↦ is_row r.status code error_reference
]

-- The errors that the table leaves out: those of a node with a code that has no row, and those with
-- the code UNKNOWN whose details say "already exists", in any case, and not "not found".
abbrev pub IsUnlisted : Unicode → AppError → Type 0
IsUnlisted u (AppError.grpc Code.not_found details) = ⊥
IsUnlisted u (AppError.grpc Code.already_exists details) = ⊥
IsUnlisted u (AppError.grpc Code.unimplemented details) = ⊥
IsUnlisted u (AppError.grpc Code.unavailable details) = ⊥
IsUnlisted u (AppError.grpc Code.unknown details) =
    Occurs (utf8 "already exists") (u.to_lowercase details)
    × ¬ Occurs (utf8 "not found") (u.to_lowercase details)
IsUnlisted u (AppError.grpc _ details) = Unit
IsUnlisted u _ = ⊥

module _ (u : Unicode) where
  listed : (b : Bool) → b ≡ true → (b ≡ true) ↔ ¬ ⊥
  listed b h = (λ k x. x, λ x. h)

  unlisted : (b : Bool) → b ≡ false → (b ≡ true) ↔ ¬ (Unit {0})
  unlisted b h = (λ k. cc (h, k), λ x. absurd (x tt))

  by_words :
      (details : Str)
      → (is_documented (into_response u (AppError.grpc Code.unknown details)) ≡ true)
        ↔ ¬ IsUnlisted u (AppError.grpc Code.unknown details)
  unfolding is_documented is_row into_response grpc_code_to_http code_name get as_str utf8 str_eq
  by_words details =
      let lower = u.to_lowercase details in
      let missing = contains_iff (utf8 "not found") lower in
      let exists = contains_iff (utf8 "already exists") lower in
      elim (Bool-cases (contains (utf8 "not found") lower)) [
        | inl says ↦ (
          λ k (old, other). other (missing.0 says),
          λ x. rw (says, is_documented, into_response, grpc_code_to_http) refl,
        )
        | inr silent ↦ elim (Bool-cases (contains (utf8 "already exists") lower)) [
          | inl old ↦ (
            λ k. cc (rw (silent, old, is_documented, into_response, grpc_code_to_http) at k),
            λ x. absurd (x (exists.0 old, λ m. cc (missing.1 m, silent))),
          )
          | inr young ↦ (
            λ k (old, other). cc (exists.1 old, young),
            λ x. rw (silent, young, is_documented, into_response, grpc_code_to_http) refl,
          )
        ]
      ]

  -- The answer to an error stands in the table of README.md, by its status and its code, exactly
  -- when the table does not leave the error out.
  pub into_response-documented_iff :
      (e : AppError) → (is_documented (into_response u e) ≡ true) ↔ ¬ IsUnlisted u e
  unfolding is_documented is_row into_response grpc_code_to_http code_name get as_str utf8 str_eq
  into_response-documented_iff (AppError.grpc Code.unknown details) = by_words details
  into_response-documented_iff (AppError.grpc Code.ok_code details) = unlisted _ refl
  into_response-documented_iff (AppError.grpc Code.cancelled details) = unlisted _ refl
  into_response-documented_iff (AppError.grpc Code.invalid_argument details) = unlisted _ refl
  into_response-documented_iff (AppError.grpc Code.deadline_exceeded details) = unlisted _ refl
  into_response-documented_iff (AppError.grpc Code.permission_denied details) = unlisted _ refl
  into_response-documented_iff (AppError.grpc Code.resource_exhausted details) = unlisted _ refl
  into_response-documented_iff (AppError.grpc Code.failed_precondition details) = unlisted _ refl
  into_response-documented_iff (AppError.grpc Code.aborted details) = unlisted _ refl
  into_response-documented_iff (AppError.grpc Code.out_of_range details) = unlisted _ refl
  into_response-documented_iff (AppError.grpc Code.internal details) = unlisted _ refl
  into_response-documented_iff (AppError.grpc Code.data_loss details) = unlisted _ refl
  into_response-documented_iff (AppError.grpc Code.unauthenticated details) = unlisted _ refl
  into_response-documented_iff _ = listed _ refl
