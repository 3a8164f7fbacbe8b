-- ===== src/Accounts/Access.antt =====
-- Registration, API keys and the caller of a request: `register` and the key routes of
-- apps/api/legacydoc_api/routers/auth.py, `decode_access_token` and the key helpers of
-- packages/core/legacydoc_core/security.py, and apps/api/legacydoc_api/deps.py up to `require_admin`.
use Prim.Native.Char.{code}
use legacy_doc.Common.{
  ℕ, ◌/◌, Bool, true, false, not, ◌&&◌, ◌||◌, Option, none, some, [], ◌∷◌, ◌++◌, String, str_eq,
  ltb, ◌==◌, if◌then◌else◌, any, is_none, find_where, alter_where, clip, append,
}
use legacy_doc.Plans.{PlanLimits, get_plan}
use legacy_doc.Accounts.{
  Externals, expired_signature, invalid_token, claims, User, ApiKey, Db, Answer, ok, refused,
  authentication, conflict, not_found, validation, TokenResponse, token_for, get_user,
  normalize_email, weak, revoke, second,
}

-- `text.partition(separator)`, for a separator of one character.
abbrev before : ℕ → String → String
before separator String.[] = String.[]
before separator (String.◌∷◌ c s) =
    let rest = before separator s in if code c == separator then String.[] else String.◌∷◌ c rest

abbrev after : ℕ → String → String
after separator String.[] = String.[]
after separator (String.◌∷◌ c s) =
    let rest = after separator s in if code c == separator then s else rest

abbrev contains : ℕ → String → Bool
contains n String.[] = false
contains n (String.◌∷◌ c s) = code c == n || contains n s

abbrev starts_with : ℕ → String → Bool
starts_with n String.[] = false
starts_with n (String.◌∷◌ c s) = code c == n

abbrev ends_with : ℕ → String → Bool
ends_with n String.[] = false
ends_with n (String.◌∷◌ c String.[]) = code c == n
ends_with n (String.◌∷◌ c (String.◌∷◌ d s)) = ends_with n (String.◌∷◌ d s)

-- `validate_email`: the at sign is 64 and the full stop 46.
unfoldable pub validate_email : Externals → String → Option String
validate_email x email =
    let normalized = normalize_email x email in
    let domain = after 64 normalized in
    if str_eq (before 64 normalized) String.[]
      || not (contains 46 domain)
      || starts_with 46 domain
      || ends_with 46 domain
    then none
    else some normalized

abbrev new_user : Externals → (id salt : ℕ) → (email password : String) → User
new_user x id salt email password = record {
  id = id;
  email = email;
  password_hash = x.hash salt password;
  plan_tier = "free";
  is_active = true;
  is_admin = false;
  failed_login_attempts = 0;
  locked_until = none;
  password_changed_at = none;
}

-- `register`; the unique index on `email` refuses a second account. `display_name` is left out.
unfoldable pub register :
    Externals
    → (id now expire_minutes min_length salt : ℕ) → (email password : String) → Db
    → Answer TokenResponse × Db
register x id now expire_minutes min_length salt email password db = elim (validate_email x email) [
  | none ↦ (refused (validation "E-mail invalido."), db)
  | some address ↦ elim (weak x min_length password) [
    | some message ↦ (refused (validation message), db)
    | none ↦
        let user = new_user x id salt address password in
        if any (λ u. str_eq u.email address) db.users
        then (refused (conflict "E-mail ja cadastrado."), db)
        else (ok (token_for x now expire_minutes user), record db { users = db.users ++ user ∷ [] })
  ]
]

pub record TokenPayload : Type 0 where
  pub user_id : String
  pub email : String
  pub issued_at : ℕ

-- `not user_id or not email`
abbrev complete_payload : Option String → Option String → ℕ → Answer TokenPayload
complete_payload (some (String.◌∷◌ c s)) (some (String.◌∷◌ d e)) iat =
    ok (record { user_id = String.◌∷◌ c s; email = String.◌∷◌ d e; issued_at = iat })
complete_payload _ _ iat = refused (authentication "Token incompleto.")

unfoldable pub decode_access_token : Externals → ℕ → String → Answer TokenPayload
decode_access_token x now token = elim (x.decode now token) [
  | expired_signature ↦ refused (authentication "Token expirado.")
  | invalid_token ↦ refused (authentication "Token invalido.")
  | claims sub email iat ↦ complete_payload sub email iat
]

abbrev changed_after : ℕ → Option ℕ → Bool
changed_after issued_at none = false
changed_after issued_at (some changed_at) = ltb issued_at (changed_at / second)

-- `_user_from_jwt`, after the token has been decoded.
unfoldable pub user_of_payload : Externals → TokenPayload → Db → Answer User
user_of_payload x payload db = elim (x.parse_uuid payload.user_id) [
  | none ↦ refused (authentication "Token invalido.")
  | some id ↦ elim (get_user id db) [
    | none ↦ refused (authentication "Usuario nao encontrado.")
    | some user ↦
        if changed_after payload.issued_at user.password_changed_at
        then refused (authentication "Sessao encerrada pela troca de senha. Entre novamente.")
        else ok user
  ]
]

unfoldable pub user_from_jwt : Externals → ℕ → String → Db → Answer User
user_from_jwt x now token db = elim (decode_access_token x now token) [
  | refused why ↦ refused why
  | ok payload ↦ user_of_payload x payload db
]

abbrev pub api_key_prefix : String
api_key_prefix = "ldk_"

abbrev pub looks_like_api_key : String → Bool
looks_like_api_key credential = str_eq (clip 4 credential) api_key_prefix

-- The row that `_user_from_api_key` stops at: its prefix, not revoked, and its hash.
abbrev pub key_matches : Externals → String → ApiKey → Bool
key_matches x token k =
    str_eq k.prefix (clip 12 token) && is_none k.revoked_at && str_eq k.key_hash (x.sha256 token)

abbrev pub touch : ℕ → ApiKey → Db → Db
touch now k db = record db {
  api_keys =
      alter_where (λ r. r.id == k.id) (λ r. record r { last_used_at = some now }) db.api_keys;
}

unfoldable pub user_from_api_key : Externals → ℕ → String → Db → Answer User × Db
user_from_api_key x now token db = elim (find_where (key_matches x token) db.api_keys) [
  | none ↦ (refused (authentication "Chave de API invalida ou revogada."), db)
  | some k ↦ elim (get_user k.user_id db) [
    | none ↦ (refused (authentication "Usuario da chave nao existe mais."), db)
    | some user ↦ (ok user, touch now k db)
  ]
]

pub record Principal : Type 0 where
  pub user : User
  pub plan : PlanLimits
  pub via_api_key : Bool

-- The end of `get_principal`; a refusal rolls back the use of the key.
abbrev pub admit : Bool → Answer User × Db → Db → Answer Principal × Db
admit via_api_key (refused why, after) db = (refused why, db)
admit via_api_key (ok user, after) db =
    if user.is_active
    then (
      ok (record { user = user; plan = get_plan user.plan_tier; via_api_key = via_api_key }),
      after,
    )
    else (refused (authentication "Conta desativada."), db)

abbrev pub get_principal_of : Externals → ℕ → String → Db → Answer Principal × Db
get_principal_of x now token db =
    if str_eq token String.[]
    then (refused (authentication "Credencial ausente."), db)
    else if looks_like_api_key token
    then admit true (user_from_api_key x now token db) db
    else admit false (user_from_jwt x now token db, db) db

unfoldable pub get_principal : Externals → ℕ → Option String → Db → Answer Principal × Db
get_principal x now none db = (refused (authentication "Credencial ausente."), db)
get_principal x now (some credentials) db = get_principal_of x now (x.strip credentials) db

unfoldable pub require_admin : Principal → Answer Principal
require_admin p =
    if p.via_api_key || not p.user.is_admin
    then refused (not_found "Recurso nao encontrado.")
    else ok p

-- `create_api_key` and `generate_api_key`, with the secret of `token_urlsafe`; the plaintext of
-- the key is shown once.
unfoldable pub create_api_key :
    Externals → (id : ℕ) → (secret name : String) → Principal → Db → String × Db
create_api_key x id secret name p db =
    let plaintext = append api_key_prefix secret in
    (
      plaintext,
      record db {
        api_keys =
            db.api_keys
            ++ record {
              id = id;
              user_id = p.user.id;
              name = name;
              prefix = clip 12 plaintext;
              key_hash = x.sha256 plaintext;
              last_used_at = none;
              revoked_at = none;
            }
              ∷ [];
      },
    )

unfoldable pub revoke_api_key : (now key_id : ℕ) → Principal → Db → Answer ℕ × Db
revoke_api_key now key_id p db = elim (find_where (λ k. k.id == key_id) db.api_keys) [
  | none ↦ (refused (not_found "Chave nao encontrada."), db)
  | some k ↦
      if k.user_id == p.user.id
      then (
        ok key_id,
        record db { api_keys = alter_where (λ r. r.id == key_id) (revoke now) db.api_keys },
      )
      else (refused (not_found "Chave nao encontrada."), db)
]
