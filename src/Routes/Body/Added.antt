-- ===== src/Routes/Body/Added.antt =====
-- An add-user request that leaves the protocol out, from the request to what the node reads.
use xray_bridge.Prelude.{
  sym, ◌≡◌, refl, ok, some, none, [], ◌∷◌, ◌++◌, ◌∙◌, ap, unwrap_or, inl, inr, arith,
}
use xray_bridge.Text.{str_eq, Str, utf8, ascii_lower}
use xray_bridge.Config.{Settings}
use xray_bridge.Outcome.{Outcome, done, fail, reject, panic}
use xray_bridge.Extern.Http.{Headers}
use xray_bridge.Extern.Unicode.{Unicode}
use xray_bridge.Proto.{TypedMessage}
use xray_bridge.Grpc.{Rpc}
use xray_bridge.App.{Platform, Client, World, App, outgoing, pure, continue}
use xray_bridge.Auth.Laws.{Grants, bearer_auth-done_iff}
use xray_bridge.Xray.Account.{add_user_op_type, vless_account_type, build_account_typed_message}
use xray_bridge.Xray.Handler.{add_user}
use xray_bridge.Xray.Handler.Added.{add_user-cases}
use xray_bridge.Routes.Extract.{auth, extract}
use xray_bridge.Routes.Body.{
  default_ss_cipher, default_vmess_security, default_proto, AddUserBody, AddUserFields,
  add_user_body, required,
}
use xray_bridge.Routes.Handler.{add_user_handler}
use xray_bridge.Routes.Serve.{serve, handle, post_users}
use xray_bridge.Routes.Serve.Guarded.{context, entered, node-done}

lower-vless : (u : Unicode) → u.to_lowercase (utf8 "vless") ≡ utf8 "vless"
unfolding utf8 ascii_lower
lower-vless u = u.lower-ascii (utf8 "vless") (ground arith)

continue-world :
    (p : Platform) {A B : Type 0} (b : B) (r : Outcome A) (w : World p)
    → (continue p (λ a. pure p b) r w).1 ≡ w
continue-world p b (done a) w = refl
continue-world p b (fail e) w = refl
continue-world p b (reject status) w = refl
continue-world p b panic w = refl

vless_typed : (p : Platform) (uuid flow : Str) → TypedMessage
vless_typed p uuid flow = record {
  type_name = vless_account_type;
  value =
      p.prost.vless_account.encode_to_vec
        (record { id = uuid; flow = flow; encryption = utf8 "none" });
}

vless_typed_lem :
    (p : Platform) (uuid flow security password cipher : Str)
    → build_account_typed_message p.unicode p.prost
        (p.unicode.to_lowercase default_proto)
        uuid
        flow
        security
        password
        cipher
      ≡ ok (vless_typed p uuid flow)
unfolding build_account_typed_message utf8 str_eq vless_typed
vless_typed_lem p uuid flow security password cipher = rw (lower-vless p.unicode) refl

module _ (p : Platform) (settings : Settings) (headers : Headers) where
  -- What the node reads in the one request of the call.
  pub record AddsVless (client : Client p) (given : AddUserFields) (tag email : Str) (w : World p)
      : Type 0 where
    pub operation : TypedMessage
    pub typed : TypedMessage
    pub is_add_user : operation.type_name ≡ add_user_op_type
    pub reads_user :
        p.prost.add_user_operation.decode operation.value
        ≡ some (record {
          user =
              some
                (record { level = unwrap_or given.level 0; email = email; account = some typed });
        })
    pub is_vless : typed.type_name ≡ vless_account_type
    pub reads_account :
        p.prost.vless_account.decode typed.value
        ≡ some (record {
          id = unwrap_or given.uuid [];
          flow = unwrap_or given.flow [];
          encryption = utf8 "none";
        })
    pub sends :
        (serve p settings headers (post_users (add_user_body given)) w).1.sent
        ≡ w.sent
          ++ outgoing p client
              (Rpc.alter_inbound (record { tag = tag; operation = some operation }))
            ∷ []

  module _ (client : Client p) (body : AddUserBody) (w : World p) where
    adds : App p (Unit {0})
    adds =
        add_user p client body.tag body.email body.proto body.level body.uuid body.flow
          body.vmess_security body.password body.ss_cipher

    -- Past the extractors the handler does what `add_user` does.
    post_users-world :
        Grants settings headers
        → (context p settings headers w).0 ≡ done client
        → (serve p settings headers (post_users (ok body)) w).1
          ≡ (adds (entered p settings headers w)).1
    unfolding serve handle add_user_handler adds extract auth
    post_users-world grants got =
        let granted = (bearer_auth-done_iff p.unicode p.http settings headers).1 grants in
        let v = entered p settings headers w in
        ap (λ r. r.1) (node-done p settings headers _ w got)
        ∙ rw granted (continue-world p _ (adds v).0 (adds v).1)

  -- An authorized request to add a user that gives the tag and the email but no protocol sends
  -- exactly one request to the node of its headers, in which the node reads, on the inbound of that
  -- tag, a VLESS user with that email, and the level, id and flow that were given, else 0 and nothing.
  pub post_users-default :
      {client : Client p} {tag email : Str} (given : AddUserFields) (w : World p)
      → Grants settings headers
      → (context p settings headers w).0 ≡ done client
      → given.tag ≡ some tag
      → given.email ≡ some email
      → given.proto ≡ none
      → AddsVless client given tag email w
  unfolding add_user_body required vless_typed adds
  post_users-default {client} {tag} {email} given w grants got has_tag has_email no_proto =
      let body : AddUserBody = record {
        tag = tag;
        email = email;
        proto = default_proto;
        level = unwrap_or given.level 0;
        uuid = unwrap_or given.uuid [];
        flow = unwrap_or given.flow [];
        vmess_security = unwrap_or given.vmess_security default_vmess_security;
        password = unwrap_or given.password [];
        ss_cipher = unwrap_or given.ss_cipher default_ss_cipher;
      } in
      let filled : add_user_body given ≡ ok body = rw (has_tag, has_email, no_proto) refl in
      let built =
        vless_typed_lem p body.uuid body.flow body.vmess_security body.password body.ss_cipher in
      let v = entered p settings headers w in
      elim (add_user-cases p client v tag email default_proto body.level body.uuid body.flow
        body.vmess_security body.password body.ss_cipher) [
          | inl (e, bad, _) ↦ cc (built, bad)
          | inr (typed, good, added) ↦
              let same : vless_typed p body.uuid body.flow ≡ typed = cc (built, good) in
              record {
                operation = added.operation;
                typed = typed;
                is_add_user = added.is_add_user;
                reads_user = added.reads;
                is_vless = ap (λ m. m.type_name) (sym same);
                reads_account =
                    ap (λ m. p.prost.vless_account.decode m.value) (sym same)
                    ∙ p.prost.vless_account.decode-encode _;
                sends =
                    ap (λ b. (serve p settings headers (post_users b) w).1.sent) filled
                    ∙ ap (λ x. x.sent) (post_users-world client body w grants got)
                    ∙ added.sends;
              }
        ]
