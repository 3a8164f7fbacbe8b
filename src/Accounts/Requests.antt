-- ===== src/Accounts/Requests.antt =====
-- Requests for a password reset.
use legacy_doc.Common.{
  ℕ, ◌+◌, ◌-◌, ◌≤◌, ◌<◌, arith, ◌≡◌, refl, sym, ap, ◌∙◌, subst, Bool, true, false, not, ◌&&◌,
  Bool-cases, Option-cases, inl, inr, ◌⊎◌, some, List, [], ◌∷◌, ◌++◌, find_where, alter_where, any,
  count, ltb, ◌==◌, String, str_eq, if◌then◌else◌,
}
use legacy_doc.Accounts.{
  normalize_email, Externals, User, PasswordResetToken, Db, is_open, use_token, issued,
  requested_recently, request_password_reset, reset_token_ttl, reset_cooldown, Mail,
}

-- Using up the tokens of one user leaves that user none, and the others theirs.
count_open-alter :
    (now i u : ℕ) (ts : List PasswordResetToken)
    → count (is_open u) (alter_where (is_open i) (use_token now) ts)
      ≡ (if i == u then 0 else count (is_open u) ts)
count_open-alter now i u [] = ground arith
count_open-alter now i u (t ∷ ts) = ground (arith, count_open-alter now i u ts)

count-append :
    (u : ℕ) (ts : List PasswordResetToken) (t : PasswordResetToken)
    → count (is_open u) (ts ++ t ∷ []) ≡ count (is_open u) ts + (if is_open u t then 1 else 0)
count-append u [] t = ground arith
count-append u (s ∷ ts) t = ground (arith, count-append u ts t)

any-append :
    (p : PasswordResetToken → Bool) (ts : List PasswordResetToken) (t : PasswordResetToken)
    → p t ≡ true
    → any p (ts ++ t ∷ []) ≡ true
any-append p [] t h = ground (arith, h)
any-append p (s ∷ ts) t h = ground (arith, any-append p ts t h)

abbrev pub renewed : Externals → (id now : ℕ) → String → User → Db → Db
renewed x id now plaintext user db = record db {
  reset_tokens =
      alter_where (is_open user.id) (use_token now) db.reset_tokens
      ++ issued x id now plaintext user.id ∷ [];
}

request-cases :
    (x : Externals) (id now : ℕ) (plaintext email : String) (db : Db)
    → (request_password_reset x id now plaintext email db ≡ ([], db))
      ⊎ ((user : User) × (find_where (λ u. str_eq u.email (normalize_email x email)) db.users
            ≡ some user)
          × (request_password_reset x id now plaintext email db ≡ (
            record { to = user.email; plaintext = plaintext } ∷ [],
            renewed x id now plaintext user db,
          )))
unfolding request_password_reset
request-cases x id now plaintext email db =
    elim (Option-cases (find_where (λ u. str_eq u.email (normalize_email x email)) db.users)) [
      | inl a ↦ inl (rw (a, request_password_reset) refl)
      | inr (user, a) ↦
          elim (Bool-cases (user.is_active && not (requested_recently now user.id db))) [
            | inl b ↦
                inr (user, a, rw (a, request_password_reset) (rw (b, request_password_reset) refl))
            | inr b ↦ inl (rw (a, request_password_reset) (rw (b, request_password_reset) refl))
          ]
    ]

-- No request leaves a user with more than one open reset token, whoever it is for.
pub request_one_open :
    (x : Externals) (id now u : ℕ) (plaintext email : String) (db : Db)
    → count (is_open u) db.reset_tokens ≤ 1
    → count (is_open u) (request_password_reset x id now plaintext email db).1.reset_tokens ≤ 1
request_one_open x id now u plaintext email db h =
    let few = λ (d : Db). count (is_open u) d.reset_tokens ≤ 1 in
    elim (request-cases x id now plaintext email db) [
      | inl e ↦ subst (λ p. few p.1) (sym e) h
      | inr (user, a, e) ↦
          subst (λ p. few p.1) (sym e)
            (ground (
              arith,
              h,
              count-append u (alter_where (is_open user.id) (use_token now) db.reset_tokens)
                  (issued x id now plaintext user.id),
              count_open-alter now user.id u db.reset_tokens,
            ))
    ]

request-quiet :
    (x : Externals) (id now : ℕ) (plaintext email : String) (user : User) (db : Db)
    → find_where (λ u. str_eq u.email (normalize_email x email)) db.users ≡ some user
    → requested_recently now user.id db ≡ true
    → request_password_reset x id now plaintext email db ≡ ([], db)
unfolding request_password_reset
request-quiet x id now plaintext email user db a r =
    let b : (user.is_active && not (requested_recently now user.id db)) ≡ false =
      ground (arith, r) in
    rw (a, request_password_reset) (rw (b, request_password_reset) refl)

renewed-recently :
    (x : Externals) (id now later : ℕ) (plaintext : String) (user : User) (db : Db)
    → later < now + reset_cooldown
    → requested_recently later user.id (renewed x id now plaintext user db) ≡ true
unfolding requested_recently
renewed-recently x id now later plaintext user db soon =
    any-append
      (λ t. is_open user.id t && ltb (later + reset_token_ttl - reset_cooldown) t.expires_at)
      (alter_where (is_open user.id) (use_token now) db.reset_tokens)
      (issued x id now plaintext user.id) (ground (arith, soon))

abbrev sends : List Mail → Bool
sends [] = false
sends (m ∷ ms) = true

-- A request that sends a mail is followed by none to the same account for a minute: a second request
-- in that time sends nothing and changes nothing.
pub request_cooldown :
    (x : Externals) (id id' now later : ℕ) (plaintext plaintext' email : String) (mail : Mail)
    (db after : Db)
    → request_password_reset x id now plaintext email db ≡ (mail ∷ [], after)
    → later < now + reset_cooldown
    → request_password_reset x id' later plaintext' email after ≡ ([], after)
request_cooldown x id id' now later plaintext plaintext' email mail db after h soon =
    elim (request-cases x id now plaintext email db) [
      | inl e ↦ absurd (ground (arith, ap (λ p. sends p.0) (sym h ∙ e)))
      | inr (user, a, e) ↦
          subst (λ d. request_password_reset x id' later plaintext' email d ≡ ([], d))
            (ap (λ p. p.1) (sym e ∙ h))
            (request-quiet x id' later plaintext' email user (renewed x id now plaintext user db) a
              (renewed-recently x id now later plaintext user db soon))
    ]
