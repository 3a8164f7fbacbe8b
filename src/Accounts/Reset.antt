-- ===== src/Accounts/Reset.antt =====
-- The life of a password reset token.
use legacy_doc.Common.{
  ℕ, arith, ◌≡◌, refl, sym, ap, ◌∙◌, subst, Bool, true, false, ◌&&◌, Bool-cases, Option-cases, inl,
  inr, some, none, List, [], ◌∷◌, find_where, find-alter, find-holds, any-find, ◌⊎◌, alter_where,
  any, is_none, is_some, ◌==◌, String, str_eq, if◌then◌else◌, if_true, if_false, leb,
}
use legacy_doc.Accounts.{
  Externals, Refusal, User, ApiKey, PasswordResetToken, Db, Answer, ok, refused, authentication,
  TokenResponse, is_open, use_token, owned_key, revoke, with_password, weak, confirmed,
  confirm_token, confirm_password_reset, get_user, token_for,
}

-- No row passes a test once each row that passed it has been rewritten so that it fails it.
any-alter :
    {A : Type 0} (p : A → Bool) (f : A → A) (xs : List A)
    → ((a : A) → p (f a) ≡ false)
    → any p (alter_where p f xs) ≡ false
any-alter p f [] h = refl
any-alter p f (x ∷ xs) h = elim (Bool-cases (p x)) [
  | inl e ↦
      subst (λ a. (if p a then true else any p (alter_where p f xs)) ≡ false)
        (sym (if_true (p x) (f x) x e))
        (if_false (p (f x)) true (any p (alter_where p f xs)) (h x) ∙ any-alter p f xs h)
  | inr e ↦
      subst (λ a. (if p a then true else any p (alter_where p f xs)) ≡ false)
        (sym (if_false (p x) (f x) x e))
        (if_false (p x) true (any p (alter_where p f xs)) e ∙ any-alter p f xs h)
]

use_token-closed :
    (now user_id : ℕ) (t : PasswordResetToken) → is_open user_id (use_token now t) ≡ false
use_token-closed now user_id t = ground arith

revoke-revoked : (now user_id : ℕ) (k : ApiKey) → owned_key user_id (revoke now k) ≡ false
revoke-revoked now user_id k = ground arith

abbrev pub spent : Refusal
spent = authentication "Link invalido ou ja utilizado."

-- A confirmation either writes everything or nothing.
confirm_token-cases :
    (x : Externals) (now m salt : ℕ) (password : String) (t : PasswordResetToken) (db : Db)
    → ((user : User) × (get_user t.user_id db ≡ some user)
        × (confirm_token x now m salt password t db ≡ (
          ok (token_for x now m (with_password x now salt password user)),
          confirmed x now salt password t user db,
        )))
      ⊎ ((why : Refusal) × (confirm_token x now m salt password t db ≡ (refused why, db)))
unfolding confirm_token
confirm_token-cases x now m salt password t db = elim (Bool-cases (is_some t.used_at)) [
  | inl a ↦ inr (spent, rw (a, confirm_token) refl)
  | inr a ↦ elim (Bool-cases (leb t.expires_at now)) [
    | inl b ↦ inr (authentication "Link expirado. Peca um novo.", rw (a, b, confirm_token) refl)
    | inr b ↦ elim (Option-cases (get_user t.user_id db)) [
      | inl c ↦ inr (spent, rw (a, b, c, confirm_token) refl)
      | inr (user, c) ↦ elim (Bool-cases user.is_active) [
        | inr d ↦ inr (spent, rw (a, b, c, d, confirm_token) refl)
        | inl d ↦ elim (Bool-cases (any (λ r. r.id == t.id && is_none r.used_at) db.reset_tokens)) [
          | inl e ↦ inl (user, c, rw (a, b, c, d, e, confirm_token) refl)
          | inr e ↦ inr (spent, rw (a, b, c, d, e, confirm_token) refl)
        ]
      ]
    ]
  ]
]

abbrev is_ok : {A : Type 0} → Answer A → Bool
is_ok (ok a) = true
is_ok (refused why) = false

confirm_token-ok :
    (x : Externals) (now m salt : ℕ) (password : String) (t : PasswordResetToken) (db after : Db)
    (r : TokenResponse)
    → confirm_token x now m salt password t db ≡ (ok r, after)
    → (user : User) × (get_user t.user_id db ≡ some user)
      × (after ≡ confirmed x now salt password t user db)
confirm_token-ok x now m salt password t db after r h =
    elim (confirm_token-cases x now m salt password t db) [
      | inl (user, c, e) ↦ (user, c, ap (λ p. p.1) (sym h ∙ e))
      | inr (why, e) ↦ absurd (ground (arith, ap (λ p. is_ok p.0) (sym h ∙ e)))
    ]

-- The part of a confirmation that precedes the token's row.
confirm-found :
    (x : Externals) (now m n salt : ℕ) (token password : String) (t : PasswordResetToken) (db : Db)
    → weak x n password ≡ none
    → find_where (λ t. str_eq t.token_hash (x.sha256 token)) db.reset_tokens ≡ some t
    → confirm_password_reset x now m n salt token password db
      ≡ confirm_token x now m salt password t db
unfolding confirm_password_reset
confirm-found x now m n salt token password t db strong found =
    rw (strong, confirm_password_reset) (rw (found, confirm_password_reset) refl)

-- A confirmed reset sets the new password of the token's user and lifts the lock, and leaves the user
-- no usable reset token and no API key that is not revoked.
pub confirm_password_reset_closes :
    (x : Externals) (now m n salt : ℕ) (token password : String) (t : PasswordResetToken)
    (db after : Db) (r : TokenResponse)
    → weak x n password ≡ none
    → find_where (λ t. str_eq t.token_hash (x.sha256 token)) db.reset_tokens ≡ some t
    → confirm_password_reset x now m n salt token password db ≡ (ok r, after)
    → ((user : User) × (get_user t.user_id db ≡ some user)
        × (get_user t.user_id after ≡ some (with_password x now salt password user)))
      × (any (is_open t.user_id) after.reset_tokens ≡ false)
      × (any (owned_key t.user_id) after.api_keys ≡ false)
unfolding confirmed
confirm_password_reset_closes x now m n salt token password t db after r strong found h =
    let (user, known, wrote) =
      confirm_token-ok x now m salt password t db after r
        (sym (confirm-found x now m n salt token password t db strong found) ∙ h) in
    let id : user.id ≡ t.user_id =
      ground (arith, find-holds (λ u. u.id == t.user_id) user db.users known) in
    subst
      (λ d.
        ((user : User) × (get_user t.user_id db ≡ some user)
          × (get_user t.user_id d ≡ some (with_password x now salt password user)))
        × (any (is_open t.user_id) d.reset_tokens ≡ false)
        × (any (owned_key t.user_id) d.api_keys ≡ false))
      (sym wrote)
      (
        (
          user,
          known,
          find-alter (λ u. u.id == t.user_id) (λ u. u.id == user.id) user
              (with_password x now salt password user) db.users known (ground arith)
              (ground (arith, id)),
        ),
        subst (λ i. any (is_open i) (confirmed x now salt password t user db).reset_tokens ≡ false)
            id
            (any-alter (is_open user.id) (use_token now)
              (alter_where (λ r. r.id == t.id && is_none r.used_at) (use_token now) db.reset_tokens)
              (use_token-closed now user.id)),
        subst (λ i. any (owned_key i) (confirmed x now salt password t user db).api_keys ≡ false) id
            (any-alter (owned_key user.id) (revoke now) db.api_keys (revoke-revoked now user.id)),
      )

-- After a confirmed reset, no reset token that the user had is accepted again, the one just used and
-- those that were never used alike: a confirmation with it is refused and changes nothing.
pub confirm_password_reset_once :
    (x : Externals) (now later m n salt salt' : ℕ) (token token' password password' : String)
    (t t' : PasswordResetToken) (db after : Db) (r : TokenResponse)
    → weak x n password ≡ none
    → weak x n password' ≡ none
    → find_where (λ t. str_eq t.token_hash (x.sha256 token)) db.reset_tokens ≡ some t
    → confirm_password_reset x now m n salt token password db ≡ (ok r, after)
    → find_where (λ t. str_eq t.token_hash (x.sha256 token')) after.reset_tokens ≡ some t'
    → t'.user_id ≡ t.user_id
    → confirm_password_reset x later m n salt' token' password' after ≡ (refused spent, after)
unfolding confirm_token
confirm_password_reset_once x now later m n salt salt' token token' password password' t t' db after
      r strong strong' found h found' same =
    let closed =
      (confirm_password_reset_closes x now m n salt token password t db after r strong found h).1 in
    let shut =
      any-find (is_open t.user_id) (λ t. str_eq t.token_hash (x.sha256 token')) t'
        after.reset_tokens closed found' in
    let used : is_some t'.used_at ≡ true = ground (arith, same, shut) in
    confirm-found x later m n salt' token' password' t' after strong' found'
    ∙ rw (used, confirm_token) refl
