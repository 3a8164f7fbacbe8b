-- ===== src/Accounts/Tests.antt =====
-- A small installation, and the properties at it.
use legacy_doc.Common.{
  ℕ, ◌+◌, ◌≤◌, arith, ◌≡◌, refl, true, false, some, none, [], ◌∷◌, String, str_eq, count,
  find_where, append, clip,
}
use legacy_doc.Plans.{get_plan}
use legacy_doc.Accounts.{
  Externals, claims, User, ApiKey, PasswordResetToken, Db, ok, refused, authentication,
  TokenResponse, minute, login, locked_out, token_for, with_password, confirmed, confirm_token,
  confirm_password_reset, request_password_reset, requested_recently, is_open,
}
use legacy_doc.Accounts.Lockout.{login_lockout}
use legacy_doc.Accounts.Reset.{confirm_password_reset_once, spent}
use legacy_doc.Accounts.Requests.{request_one_open, renewed}
use legacy_doc.Accounts.Access.{
  Principal, decode_access_token, user_from_jwt, key_matches, get_principal, create_api_key,
  validate_email,
}
use legacy_doc.Accounts.Sessions.{reset_ends_sessions, api_key_roundtrip}

abbrev externals : Externals
externals = record {
  strip = λ s. s;
  lower = λ s. s;
  is_digit = λ s. false;
  is_alpha = λ s. false;
  hash = λ salt password. password;
  verify = λ password hash. str_eq password hash;
  sha256 = λ s. s;
  encode = λ sub email iat exp. append sub email;
  decode = λ now token. claims (some token) (some "ana@example.com") 900;
  uuid_text = λ n. "1";
  parse_uuid = λ s. some 1;
}

abbrev ana : User
ana = record {
  id = 1;
  email = "ana@example.com";
  password_hash = "correct";
  plan_tier = "pro";
  is_active = true;
  is_admin = false;
  failed_login_attempts = 4;
  locked_until = none;
  password_changed_at = none;
}

abbrev bia : User
bia = record ana { id = 2; email = "bia@example.com" }

abbrev key : ℕ → ApiKey
key user_id = record {
  id = user_id;
  user_id = user_id;
  name = "ci";
  prefix = "ldk_00000000";
  key_hash = "ldk_00000000key";
  last_used_at = none;
  revoked_at = none;
}

abbrev link : ℕ → String → PasswordResetToken
link id token_hash = record {
  id = id;
  user_id = 1;
  token_hash = token_hash;
  expires_at = 2_000_000_000;
  used_at = none;
}

abbrev db : Db
db = record {
  users = ana ∷ bia ∷ [];
  api_keys = key 1 ∷ key 2 ∷ [];
  reset_tokens = link 1 "link" ∷ link 2 "other" ∷ [];
}

abbrev noon : ℕ
noon = 1_000_000_000

abbrev after : Db
after = confirmed externals noon 7 "new1" (link 1 "link") ana db

abbrev session : TokenResponse
session = token_for externals noon 60 (with_password externals noon 7 "new1" ana)

address : validate_email externals "ana@example.com" ≡ some "ana@example.com"
unfolding validate_email
address = refl

no_address : validate_email externals "ana@example." ≡ none
unfolding validate_email
no_address = refl

confirmed_link : confirm_password_reset externals noon 60 4 7 "link" "new1" db ≡ (ok session, after)
unfolding confirm_password_reset confirm_token
confirmed_link = refl

login_lockout_example :
    login externals
      (noon + minute)
      60
      "ana@example.com"
      "correct"
      (login externals noon 60 "ana@example.com" "wrong" db).1
    ≡ (refused locked_out, (login externals noon 60 "ana@example.com" "wrong" db).1)
login_lockout_example =
    login_lockout externals noon (noon + minute) 60 "ana@example.com" "wrong" "correct" ana db refl
      refl refl (omega arith) (omega arith)

abbrev used_link : PasswordResetToken
used_link = record (link 2 "other") { used_at = some noon }

other_found : find_where (λ t. str_eq t.token_hash "other") after.reset_tokens ≡ some used_link
unfolding confirmed
other_found = refl

confirm_password_reset_once_example :
    confirm_password_reset externals (noon + 5) 60 4 8 "other" "new2" after ≡ (refused spent, after)
confirm_password_reset_once_example =
    confirm_password_reset_once externals noon (noon + 5) 60 4 7 8 "link" "other" "new1" "new2"
      (link 1 "link") used_link db after session refl refl refl confirmed_link other_found refl

reset_ends_sessions_example :
    user_from_jwt externals (noon + 5) "session" after
    ≡ refused (authentication "Sessao encerrada pela troca de senha. Entre novamente.")
unfolding decode_access_token
reset_ends_sessions_example =
    reset_ends_sessions externals noon (noon + 5) 60 4 7 "link" "new1" "session" (link 1 "link") db
      after session (record { user_id = "session"; email = "ana@example.com"; issued_at = 900 })
      refl refl confirmed_link refl refl (omega arith)

bias_key : find_where (key_matches externals "ldk_00000000key") after.api_keys ≡ some (key 2)
unfolding confirmed clip
bias_key = refl

abbrev caller : Principal
caller = record { user = ana; plan = get_plan "pro"; via_api_key = false }

api_key_roundtrip_example :
    (get_principal externals noon
      (some (create_api_key externals 9 "secret" "ci" caller db).0)
      (create_api_key externals 9 "secret" "ci" caller db).1).0
    ≡ ok (record { user = ana; plan = get_plan "pro"; via_api_key = true })
unfolding create_api_key clip
api_key_roundtrip_example =
    api_key_roundtrip externals 9 noon "secret" "ci" caller db refl refl refl refl

abbrev quiet : Db
quiet = record db { reset_tokens = [] }

request_one_open_example :
    count
      (is_open 1)
      (request_password_reset externals 3 noon "plain" "ana@example.com" quiet).1.reset_tokens
    ≤ 1
request_one_open_example =
    request_one_open externals 3 noon 1 "plain" "ana@example.com" quiet (omega arith)

first_request : request_password_reset externals 3 noon "plain" "ana@example.com" quiet ≡ (
  record { to = "ana@example.com"; plaintext = "plain" } ∷ [],
  renewed externals 3 noon "plain" ana quiet,
)
unfolding request_password_reset requested_recently
first_request = refl
