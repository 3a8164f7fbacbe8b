-- ===== src/Accounts.antt =====
-- Accounts: packages/core/legacydoc_core/security.py, apps/api/legacydoc_api/routers/auth.py and the
-- authentication of apps/api/legacydoc_api/deps.py, over the tables `users`, `api_keys` and
-- `password_reset_tokens` of packages/core/legacydoc_core/models.py. Instants are microseconds. A
-- handler returns its answer and the tables that are committed: an error rolls back what the handler
-- wrote, save where it has committed before.
pub mod Lockout
pub mod Reset
pub mod Requests
pub mod Access
pub mod Sessions
mod Tests
use legacy_doc.Common.{
  ℕ, ◌+◌, ◌-◌, ◌*◌, ◌/◌, ◌^◌, min, Bool, true, false, not, ◌&&◌, ◌||◌, Option, none, some, List, [],
  ◌∷◌, ◌++◌, String, str_eq, ltb, leb, ◌==◌, if◌then◌else◌, any, is_some, is_none, find_where,
  alter_where, chars, clip,
}

-- The libraries: `str.strip`, `str.lower`, `str.isdigit`, `str.isalpha`, pwdlib's hash (with a salt)
-- and its check, SHA-256, PyJWT, and the texts of a UUID.
pub data Decoded : Type 0 where
  expired_signature invalid_token : Decoded
  claims : (sub email : Option String) (iat : ℕ) → Decoded

pub record Externals : Type 0 where
  pub strip : String → String
  pub lower : String → String
  pub is_digit : String → Bool
  pub is_alpha : String → Bool
  pub hash : ℕ → String → String
  pub verify : String → String → Bool
  pub sha256 : String → String
  pub encode : (sub email : String) (iat exp : ℕ) → String
  pub decode : ℕ → String → Decoded
  pub uuid_text : ℕ → String
  pub parse_uuid : String → Option ℕ

pub record User : Type 0 where
  pub id : ℕ
  pub email : String
  pub password_hash : String
  pub plan_tier : String
  pub is_active : Bool
  pub is_admin : Bool
  pub failed_login_attempts : ℕ
  pub locked_until : Option ℕ
  pub password_changed_at : Option ℕ

pub record ApiKey : Type 0 where
  pub id : ℕ
  pub user_id : ℕ
  pub name : String
  pub prefix : String
  pub key_hash : String
  pub last_used_at : Option ℕ
  pub revoked_at : Option ℕ

pub record PasswordResetToken : Type 0 where
  pub id : ℕ
  pub user_id : ℕ
  pub token_hash : String
  pub expires_at : ℕ
  pub used_at : Option ℕ

pub record Db : Type 0 where
  pub users : List User
  pub api_keys : List ApiKey
  pub reset_tokens : List PasswordResetToken

pub data Refusal : Type 0 where
  authentication conflict not_found validation : String → Refusal

pub data Answer (A : Type 0) : Type 0 where
  ok : A → Answer A
  refused : Refusal → Answer A

pub record TokenResponse : Type 0 where
  pub access_token : String
  pub expires_in_seconds : ℕ

abbrev pub second : ℕ
second = 1_000_000

abbrev pub minute : ℕ
minute = 60_000_000

abbrev pub max_failed_logins : ℕ
max_failed_logins = 5

abbrev pub lockout_minutes : ℕ
lockout_minutes = 15

unfoldable pub lockout_until : ℕ → ℕ → Option ℕ
lockout_until now failed_attempts =
    if ltb failed_attempts max_failed_logins
    then none
    else some
        (now + min (lockout_minutes * 2 ^ (failed_attempts - max_failed_logins)) (24 * 60) * minute)

abbrev pub is_locked : ℕ → Option ℕ → Bool
is_locked now none = false
is_locked now (some locked_until) = ltb now locked_until

abbrev pub put_user : User → Db → Db
put_user user db = record db { users = alter_where (λ u. u.id == user.id) (λ _. user) db.users }

abbrev pub get_user : ℕ → Db → Option User
get_user id db = find_where (λ u. u.id == id) db.users

-- `normalize_email`
abbrev pub normalize_email : Externals → String → String
normalize_email x email = x.lower (x.strip email)

-- `validate_password_strength`, whose first message also tells the minimum.
abbrev pub weak : Externals → ℕ → String → Option String
weak x min_length password =
    if ltb (chars password) min_length
    then some "A senha deve ter pelo menos o minimo de caracteres."
    else if x.is_digit password || x.is_alpha password
    then some "A senha deve misturar letras e numeros."
    else none

-- `_token_for` and `create_access_token`
unfoldable pub token_for : Externals → ℕ → ℕ → User → TokenResponse
token_for x now expire_minutes user = record {
  access_token =
      x.encode (x.uuid_text user.id) user.email (now / second)
        ((now + expire_minutes * minute) / second);
  expires_in_seconds = expire_minutes * 60;
}

abbrev pub with_failure : ℕ → User → User
with_failure now user = record user {
  failed_login_attempts = user.failed_login_attempts + 1;
  locked_until = lockout_until now (user.failed_login_attempts + 1);
}

abbrev pub unlocked : User → User
unlocked user = record user { failed_login_attempts = 0; locked_until = none }

abbrev pub locked_out : Refusal
locked_out =
    authentication
      "Conta temporariamente bloqueada por tentativas seguidas de login. Tente novamente mais tarde ou redefina sua senha."

-- The body of `login` for the account of the address.
unfoldable pub login_user : Externals → ℕ → ℕ → String → User → Db → Answer TokenResponse × Db
login_user x now expire_minutes password user db =
    if is_locked now user.locked_until
    then (refused locked_out, db)
    else if not (x.verify password user.password_hash)
    then (
      (if is_some (lockout_until now (user.failed_login_attempts + 1))
          then refused
              (authentication "Conta temporariamente bloqueada por tentativas seguidas de login.")
          else refused (authentication "Credenciais invalidas.")),
      put_user (with_failure now user) db,
    )
    else if not user.is_active
    then (refused (authentication "Conta desativada."), db)
    else (ok (token_for x now expire_minutes user), put_user (unlocked user) db)

unfoldable pub login :
    Externals → ℕ → ℕ → (email password : String) → Db → Answer TokenResponse × Db
login x now expire_minutes email password db =
    elim (find_where (λ u. str_eq u.email (normalize_email x email)) db.users) [
      | none ↦ (refused (authentication "Credenciais invalidas."), db)
      | some user ↦ login_user x now expire_minutes password user db
    ]

abbrev pub is_open : ℕ → PasswordResetToken → Bool
is_open user_id t = t.user_id == user_id && is_none t.used_at

abbrev pub use_token : ℕ → PasswordResetToken → PasswordResetToken
use_token now t = record t { used_at = some now }

abbrev pub reset_token_ttl : ℕ
reset_token_ttl = 30 * minute

abbrev pub reset_cooldown : ℕ
reset_cooldown = 60 * second

-- `_reset_requested_recently`
unfoldable pub requested_recently : ℕ → ℕ → Db → Bool
requested_recently now user_id db =
    any (λ t. is_open user_id t && ltb (now + reset_token_ttl - reset_cooldown) t.expires_at)
      db.reset_tokens

pub record Mail : Type 0 where
  pub to : String
  pub plaintext : String

abbrev pub issued : Externals → ℕ → ℕ → String → ℕ → PasswordResetToken
issued x id now plaintext user_id = record {
  id = id;
  user_id = user_id;
  token_hash = x.sha256 plaintext;
  expires_at = now + reset_token_ttl;
  used_at = none;
}

-- `request_password_reset`; the mail it sends after its answer, which is always the same. `plaintext`
-- is the random text of `generate_reset_token`, `id` the fresh `uuid4`.
unfoldable pub request_password_reset :
    Externals → (id now : ℕ) → (plaintext email : String) → Db → List Mail × Db
request_password_reset x id now plaintext email db =
    elim (find_where (λ u. str_eq u.email (normalize_email x email)) db.users) [
      | none ↦ ([], db)
      | some user ↦
          if user.is_active && not (requested_recently now user.id db)
          then (
            record { to = user.email; plaintext = plaintext } ∷ [],
            record db {
              reset_tokens =
                  alter_where (is_open user.id) (use_token now) db.reset_tokens
                  ++ issued x id now plaintext user.id ∷ [];
            },
          )
          else ([], db)
    ]

abbrev pub owned_key : ℕ → ApiKey → Bool
owned_key user_id k = k.user_id == user_id && is_none k.revoked_at

abbrev pub revoke : ℕ → ApiKey → ApiKey
revoke now k = record k { revoked_at = some now }

abbrev pub with_password : Externals → (now salt : ℕ) → String → User → User
with_password x now salt new_password user = record user {
  password_hash = x.hash salt new_password;
  password_changed_at = some now;
  failed_login_attempts = 0;
  locked_until = none;
}

-- What a confirmed reset writes: the token is used, the password set, the user's other tokens used
-- and the API keys revoked.
unfoldable pub confirmed : Externals → (now salt : ℕ) → String → PasswordResetToken → User → Db → Db
confirmed x now salt new_password t user db =
    let claimed =
      alter_where (λ r. r.id == t.id && is_none r.used_at) (use_token now) db.reset_tokens in
    record (put_user (with_password x now salt new_password user) db) {
      api_keys = alter_where (owned_key user.id) (revoke now) db.api_keys;
      reset_tokens = alter_where (is_open user.id) (use_token now) claimed;
    }

-- The body of `confirm_password_reset` for the row of the token. The update that claims the row
-- matches no row only if another request has used it since it was read.
unfoldable pub confirm_token :
    Externals
    → (now expire_minutes salt : ℕ) → String
    → PasswordResetToken
    → Db
    → Answer TokenResponse × Db
confirm_token x now expire_minutes salt new_password t db =
    if is_some t.used_at
    then (refused (authentication "Link invalido ou ja utilizado."), db)
    else if leb t.expires_at now
    then (refused (authentication "Link expirado. Peca um novo."), db)
    else elim (get_user t.user_id db) [
      | none ↦ (refused (authentication "Link invalido ou ja utilizado."), db)
      | some user ↦
          if not user.is_active
          then (refused (authentication "Link invalido ou ja utilizado."), db)
          else if not (any (λ r. r.id == t.id && is_none r.used_at) db.reset_tokens)
          then (refused (authentication "Link invalido ou ja utilizado."), db)
          else (
            ok (token_for x now expire_minutes (with_password x now salt new_password user)),
            confirmed x now salt new_password t user db,
          )
    ]

unfoldable pub confirm_password_reset :
    Externals
    → (now expire_minutes min_length salt : ℕ) → (token new_password : String) → Db
    → Answer TokenResponse × Db
confirm_password_reset x now expire_minutes min_length salt token new_password db =
    elim (weak x min_length new_password) [
      | some message ↦ (refused (validation message), db)
      | none ↦ elim (find_where (λ t. str_eq t.token_hash (x.sha256 token)) db.reset_tokens) [
        | none ↦ (refused (authentication "Link invalido ou ja utilizado."), db)
        | some t ↦ confirm_token x now expire_minutes salt new_password t db
      ]
    ]
