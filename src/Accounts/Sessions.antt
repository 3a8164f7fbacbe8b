-- ===== src/Accounts/Sessions.antt =====
-- Which sessions and API keys admit a caller.
use text.Mathlib.TextLemmas.{cons-append, length-cons}
use legacy_doc.Common.{
  ℕ, suc, ◌/◌, ◌<◌, arith, ◌≡◌, refl, sym, ap, ◌∙◌, subst, Bool, true, false, some, none, some≢none,
  List, [], ◌∷◌, ◌++◌, String, str_eq, eq_iff, lt→ltb, ◌==◌, if◌then◌else◌, if_true, if_false,
  Bool-cases, inl, inr, find_where, find-holds, any-find, clip, append, chars,
}
use legacy_doc.Plans.{get_plan}
use legacy_doc.Accounts.{
  Externals, User, ApiKey, PasswordResetToken, Db, Answer, ok, refused, authentication,
  TokenResponse, weak, with_password, second, confirm_password_reset, get_user, owned_key,
}
use legacy_doc.Accounts.Reset.{confirm_password_reset_closes}
use legacy_doc.Accounts.Access.{
  TokenPayload, decode_access_token, user_of_payload, user_from_jwt, key_matches, user_from_api_key,
  Principal, get_principal, create_api_key, api_key_prefix, looks_like_api_key, touch, admit,
}

user_of_payload-ended :
    (x : Externals) (payload : TokenPayload) (user : User) (id : ℕ) (db : Db)
    → x.parse_uuid payload.user_id ≡ some id
    → get_user id db ≡ some user
    → (now : ℕ) → user.password_changed_at ≡ some now
    → payload.issued_at < now / second
    → user_of_payload x payload db
      ≡ refused (authentication "Sessao encerrada pela troca de senha. Entre novamente.")
unfolding user_of_payload
user_of_payload-ended x payload user id db a b now c d =
    rw (a, user_of_payload)
      (rw (b, user_of_payload) (rw c (rw (lt→ltb payload.issued_at (now / second) d) refl)))

-- A confirmed reset ends the sessions that the user had: a token that still decodes, of this user and
-- issued in an earlier second than the reset, is refused.
pub reset_ends_sessions :
    (x : Externals) (now later m n salt : ℕ) (token password session : String)
    (t : PasswordResetToken) (db after : Db) (r : TokenResponse) (payload : TokenPayload)
    → weak x n password ≡ none
    → find_where (λ t. str_eq t.token_hash (x.sha256 token)) db.reset_tokens ≡ some t
    → confirm_password_reset x now m n salt token password db ≡ (ok r, after)
    → decode_access_token x later session ≡ ok payload
    → x.parse_uuid payload.user_id ≡ some t.user_id
    → payload.issued_at < now / second
    → user_from_jwt x later session after
      ≡ refused (authentication "Sessao encerrada pela troca de senha. Entre novamente.")
unfolding user_from_jwt
reset_ends_sessions x now later m n salt token password session t db after r payload strong found h
      d u old =
    let ((user, known, set), _, _) =
      confirm_password_reset_closes x now m n salt token password t db after r strong found h in
    rw (d, user_from_jwt)
      (user_of_payload-ended x payload (with_password x now salt password user) t.user_id after u
        set now refl old)

-- A confirmed reset withdraws the API keys that the user had: a key that is still accepted belongs to
-- someone else.
pub reset_ends_keys :
    (x : Externals) (now m n salt : ℕ) (token password key : String) (t : PasswordResetToken)
    (k : ApiKey) (db after : Db) (r : TokenResponse)
    → weak x n password ≡ none
    → find_where (λ t. str_eq t.token_hash (x.sha256 token)) db.reset_tokens ≡ some t
    → confirm_password_reset x now m n salt token password db ≡ (ok r, after)
    → find_where (key_matches x key) after.api_keys ≡ some k
    → (k.user_id == t.user_id) ≡ false
reset_ends_keys x now m n salt token password key t k db after r strong found h f =
    let revoked =
      (confirm_password_reset_closes x now m n salt token password t db after r strong found h).2 in
    let not_owned = any-find (owned_key t.user_id) (key_matches x key) k after.api_keys revoked f in
    let live = find-holds (key_matches x key) k after.api_keys f in ground (arith, not_owned, live)

clip-append : (a s : String) → clip (chars a) (append a s) ≡ a
unfolding clip
clip-append String.[] s = refl
clip-append (String.◌∷◌ c a) s =
    ap (λ n. clip n (append (String.◌∷◌ c a) s)) (length-cons c a)
    ∙ ap (λ l. clip (suc (chars a)) l) (cons-append c a s)
    ∙ ap (λ l. String.◌∷◌ c l) (clip-append a s)

str_eq_refl : (s : String) → str_eq s s ≡ true
str_eq_refl s = (eq_iff s s).1 refl

find-append :
    {A : Type 0} (p : A → Bool) (xs : List A) (x : A)
    → find_where p xs ≡ none
    → p x ≡ true
    → find_where p (xs ++ x ∷ []) ≡ some x
find-append p [] x h k = if_true (p x) (some x) none k
find-append p (y ∷ xs) x h k = elim (Bool-cases (p y)) [
  | inl e ↦ absurd (some≢none (sym (if_true (p y) (some y) (find_where p xs) e) ∙ h))
  | inr e ↦
      if_false (p y) (some y) (find_where p (xs ++ x ∷ [])) e
      ∙ find-append p xs x (sym (if_false (p y) (some y) (find_where p xs) e) ∙ h) k
]

api_key-not_empty :
    (token : String) → looks_like_api_key token ≡ true → str_eq token String.[] ≡ false
unfolding clip
api_key-not_empty token h = elim (Bool-cases (str_eq token String.[])) [
  | inr e ↦ e
  | inl e ↦
      absurd
        (ground (arith, subst (λ s. looks_like_api_key s ≡ true) ((eq_iff token String.[]).0 e) h))
]

user_from_api_key-found :
    (x : Externals) (now : ℕ) (token : String) (user : User) (k : ApiKey) (db : Db)
    → find_where (key_matches x token) db.api_keys ≡ some k
    → get_user k.user_id db ≡ some user
    → user_from_api_key x now token db ≡ (ok user, touch now k db)
unfolding user_from_api_key
user_from_api_key-found x now token user k db found known =
    rw (found, user_from_api_key) (rw (known, user_from_api_key) refl)

get_principal-key :
    (x : Externals) (now : ℕ) (credentials : String) (user : User) (k : ApiKey) (db : Db)
    → let token = x.strip credentials in
      looks_like_api_key token ≡ true
      → find_where (key_matches x token) db.api_keys ≡ some k
      → get_user k.user_id db ≡ some user
      → user.is_active ≡ true
      → get_principal x now (some credentials) db ≡ (
        ok (record { user = user; plan = get_plan user.plan_tier; via_api_key = true }),
        touch now k db,
      )
unfolding get_principal
get_principal-key x now credentials user k db looks found known active =
    let token = x.strip credentials in
    let answer : user_from_api_key x now token db ≡ (ok user, touch now k db) =
      user_from_api_key-found x now token user k db found known in
    let admitted = λ (a : Answer User × Db). admit true a db in
    if_false (str_eq token String.[]) (refused (authentication "Credencial ausente."), db)
      (if looks_like_api_key token
        then admitted (user_from_api_key x now token db)
        else admit false (user_from_jwt x now token db, db) db)
      (api_key-not_empty token looks)
    ∙ if_true (looks_like_api_key token) (admitted (user_from_api_key x now token db))
        (admit false (user_from_jwt x now token db, db) db) looks
    ∙ ap admitted answer
    ∙ rw active refl

-- A new API key admits its owner: a request with the plaintext of a key that was just created is
-- admitted as the key's owner, under the owner's plan, where the owner is active and no older key
-- answers to the same text.
pub api_key_roundtrip :
    (x : Externals) (id now : ℕ) (secret name : String) (p : Principal) (db : Db)
    → get_user p.user.id db ≡ some p.user
    → p.user.is_active ≡ true
    → let created = create_api_key x id secret name p db in
      find_where (key_matches x created.0) db.api_keys ≡ none
      → x.strip created.0 ≡ created.0
      → (get_principal x now (some created.0) created.1).0
        ≡ ok (record { user = p.user; plan = get_plan p.user.plan_tier; via_api_key = true })
unfolding create_api_key
api_key_roundtrip x id now secret name p db known active fresh clean =
    let plaintext = append api_key_prefix secret in
    let db' = (create_api_key x id secret name p db).1 in
    let key : ApiKey = record {
      id = id;
      user_id = p.user.id;
      name = name;
      prefix = clip 12 plaintext;
      key_hash = x.sha256 plaintext;
      last_used_at = none;
      revoked_at = none;
    } in
    let found : find_where (key_matches x plaintext) db'.api_keys ≡ some key =
      find-append (key_matches x plaintext) db.api_keys key fresh
        (rw (str_eq_refl (clip 12 plaintext)) (rw (str_eq_refl (x.sha256 plaintext)) refl)) in
    let prefixed : looks_like_api_key plaintext ≡ true =
      rw (clip-append api_key_prefix secret) refl in
    ap (λ r. r.0)
      (get_principal-key x now plaintext p.user key db'
        (subst (λ t. looks_like_api_key t ≡ true) (sym clean) prefixed)
        (subst (λ t. find_where (key_matches x t) db'.api_keys ≡ some key) (sym clean) found) known
        active)
