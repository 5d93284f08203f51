-- ===== src/Tests/Wire.antt =====
-- An encoding of the messages of src/proto/ for the tests: a text goes with its length in front.
use xray_bridge.Prelude.{
  ℕ, suc, zero, append_assoc, append-nil, ◌≡◌, refl, ap, Option, some, none, [], ◌∷◌, ◌++◌,
  and_then,
}
use xray_bridge.Text.{Str}
use xray_bridge.Extern.Codec.{Codec, Prost}
use xray_bridge.Proto.{Bytes, TypedMessage, User, SecurityConfig}

-- A reader that gives back what a writer wrote, and the bytes behind it.
record Wire (A : Type 0) : Type 0 where
  write : A → Bytes
  read : Bytes → Option (A × Bytes)
  read-write : (a : A) (rest : Bytes) → read (write a ++ rest) ≡ some (a, rest)

num_read : Bytes → Option (ℕ × Bytes)
num_read [] = none
num_read (n ∷ rest) = some (n, rest)

num : Wire ℕ
unfolding num_read
num = record { write = λ n. n ∷ []; read = num_read; read-write = λ n rest. refl }

text_write : Str → Bytes
text_write [] = 0 ∷ []
text_write (b ∷ s) = 1 ∷ b ∷ text_write s

text_cons : ℕ → Option (Str × Bytes) → Option (Str × Bytes)
text_cons b none = none
text_cons b (some (s, rest)) = some (b ∷ s, rest)

text_read : Bytes → Option (Str × Bytes)
text_read [] = none
text_read (zero ∷ rest) = some ([], rest)
text_read (suc _ ∷ []) = none
text_read (suc _ ∷ b ∷ rest) = text_cons b (text_read rest)

text_read-write : (s : Str) (rest : Bytes) → text_read (text_write s ++ rest) ≡ some (s, rest)
unfolding text_read text_write text_cons
text_read-write [] rest = refl
text_read-write (b ∷ s) rest = ap (text_cons b) (text_read-write s rest)

text : Wire Str
text = record { write = text_write; read = text_read; read-write = text_read-write }

module _ {A B : Type 0} (a : Wire A) (b : Wire B) where
  second : Option (A × Bytes) → Option ((A × B) × Bytes)
  second none = none
  second (some (x, rest)) = and_then (b.read rest) (λ (y, rest'). some ((x, y), rest'))

  both_law :
      (x : A) (y : B) (rest : Bytes)
      → second (a.read ((a.write x ++ b.write y) ++ rest)) ≡ some ((x, y), rest)
  unfolding second
  both_law x y rest =
      rw
        (
          append_assoc (a.write x) (b.write y) rest,
          a.read-write x (b.write y ++ rest),
          second,
          b.read-write y rest,
        )
        refl

  both : Wire (A × B)
  both = record {
    write = λ (x, y). a.write x ++ b.write y;
    read = λ bytes. second (a.read bytes);
    read-write = λ (x, y) rest. both_law x y rest;
  }

module _ {A : Type 0} (a : Wire A) where
  maybe_write : Option A → Bytes
  maybe_write none = 0 ∷ []
  maybe_write (some x) = 1 ∷ a.write x

  maybe_read : Bytes → Option (Option A × Bytes)
  maybe_read [] = none
  maybe_read (zero ∷ rest) = some (none, rest)
  maybe_read (suc _ ∷ rest) = and_then (a.read rest) (λ (x, rest'). some (some x, rest'))

  maybe_law : (x : Option A) (rest : Bytes) → maybe_read (maybe_write x ++ rest) ≡ some (x, rest)
  unfolding maybe_read maybe_write
  maybe_law none rest = refl
  maybe_law (some x) rest = rw (a.read-write x rest) refl

  maybe : Wire (Option A)
  maybe = record { write = maybe_write; read = maybe_read; read-write = maybe_law }

-- A message that is as good as its fields.
module _ {A M : Type 0} (a : Wire A) (fields : M → A) (build : A → M)
    (same : (m : M) → build (fields m) ≡ m) where
  message : Wire M
  message = record {
    write = λ m. a.write (fields m);
    read = λ bytes. and_then (a.read bytes) (λ (x, rest). some (build x, rest));
    read-write = λ m rest. rw (a.read-write (fields m) rest) (ap (λ n. some (n, rest)) (same m));
  }

  codec : Codec M
  unfolding message
  codec = record {
    encode_to_vec = λ m. message.write m;
    decode = λ bytes. and_then (message.read bytes) (λ (m, _). some m);
    decode-encode = λ m. rw (← append-nil (message.write m), message.read-write m []) refl;
  }

typed_message : Wire TypedMessage
typed_message =
    message (both text text) (λ m. (m.type_name, m.value))
      (λ (t, v). record { type_name = t; value = v }) (λ m. refl)

user : Wire User
user =
    message (both num (both text (maybe typed_message))) (λ m. (m.level, (m.email, m.account)))
      (λ (l, (e, a)). record { level = l; email = e; account = a }) (λ m. refl)

security : Wire SecurityConfig
security = message num (λ m. m.security_type) (λ n. record { security_type = n }) (λ m. refl)

pub prost : Prost
prost = record {
  add_user_operation = codec (maybe user) (λ m. m.user) (λ u. record { user = u }) (λ m. refl);
  remove_user_operation = codec text (λ m. m.email) (λ e. record { email = e }) (λ m. refl);
  vless_account =
      codec (both text (both text text)) (λ m. (m.id, (m.flow, m.encryption)))
        (λ (i, (f, e)). record { id = i; flow = f; encryption = e }) (λ m. refl);
  vmess_account =
      codec (both text (maybe security)) (λ m. (m.id, m.security_settings))
        (λ (i, s). record { id = i; security_settings = s }) (λ m. refl);
  trojan_account = codec text (λ m. m.password) (λ p. record { password = p }) (λ m. refl);
  shadowsocks_account =
      codec (both text num) (λ m. (m.password, m.cipher_type))
        (λ (p, c). record { password = p; cipher_type = c }) (λ m. refl);
}
