-- ===== src/Accounts/Lockout.antt =====
-- The lock of an account after failed logins.
use legacy_doc.Common.{
  ℕ, ◌+◌, ◌-◌, ◌*◌, ◌^◌, min, ◌≤◌, ◌<◌, arith, ◌≡◌, refl, sym, ap, ◌∙◌, subst, false, some,
  find_where, find-alter, find-holds, ◌==◌, String, str_eq, lt→ltb,
}
use legacy_doc.Common.Arith.{pow-pos, pow_mono}
use legacy_doc.Accounts.{
  normalize_email, Externals, User, Db, refused, locked_out, minute, lockout_until, is_locked,
  with_failure, login_user, login, put_user,
}

lockout_until-some :
    (now n : ℕ) → 5 ≤ n → lockout_until now n ≡ some (now + min (15 * 2 ^ (n - 5)) 1440 * minute)
unfolding lockout_until
lockout_until-some now n h = ground (arith, h)

-- Fewer than five failures do not lock the account; from the fifth on it is locked for at least 15
-- minutes and at most a day, and for no shorter time after more failures.
pub lockout_until_bounds :
    (now n m : ℕ)
    → 5 ≤ n
    → n ≤ m
    → (until later : ℕ) × (lockout_until now n ≡ some until)
      × (lockout_until now m ≡ some later)
      × (now + 15 * minute ≤ until)
      × (until ≤ later)
      × (later ≤ now + 1440 * minute)
lockout_until_bounds now n m h k = (
  now + min (15 * 2 ^ (n - 5)) 1440 * minute,
  now + min (15 * 2 ^ (m - 5)) 1440 * minute,
  lockout_until-some now n h,
  lockout_until-some now m (omega (arith, h, k)),
  omega (arith, pow-pos (n - 5)),
  omega (arith, h, k, pow_mono (n - 5) (m - 5) (omega (arith, h, k))),
  omega arith,
)

-- A wrong password.
login_user-failed :
    (x : Externals) (now m : ℕ) (password : String) (user : User) (db : Db)
    → is_locked now user.locked_until ≡ false
    → x.verify password user.password_hash ≡ false
    → (login_user x now m password user db).1 ≡ put_user (with_failure now user) db
unfolding login_user
login_user-failed x now m password user db free wrong = rw free (rw wrong refl)

-- A locked account.
login_user-locked :
    (x : Externals) (now m until : ℕ) (password : String) (user : User) (db : Db)
    → user.locked_until ≡ some until
    → now < until
    → login_user x now m password user db ≡ (refused locked_out, db)
unfolding login_user
login_user-locked x now m until password user db e h = rw (e, lt→ltb now until h) refl

login-found :
    (x : Externals) (now m : ℕ) (email password : String) (user : User) (db : Db)
    → find_where (λ u. str_eq u.email (normalize_email x email)) db.users ≡ some user
    → login x now m email password db ≡ login_user x now m password user db
unfolding login
login-found x now m email password user db found = rw (found, login) refl

-- Once a login has failed with the fifth wrong password in a row or a later one, no login to the
-- account is accepted for the next 15 minutes, whatever the password is, and none of them changes
-- the account.
pub login_lockout :
    (x : Externals) (now later m : ℕ) (email wrong password : String) (user : User) (db : Db)
    → find_where (λ u. str_eq u.email (normalize_email x email)) db.users ≡ some user
    → is_locked now user.locked_until ≡ false
    → x.verify wrong user.password_hash ≡ false
    → 4 ≤ user.failed_login_attempts
    → later < now + 15 * minute
    → let after = (login x now m email wrong db).1 in
      login x later m email password after ≡ (refused locked_out, after)
login_lockout x now later m email wrong password user db found free bad many h =
    let p = λ (u : User). str_eq u.email (normalize_email x email) in
    let locked = with_failure now user in
    let db' = put_user locked db in
    let wrote : (login x now m email wrong db).1 ≡ db' =
      ap (λ r. r.1) (login-found x now m email wrong user db found)
      ∙ login_user-failed x now m wrong user db free bad in
    let found' : find_where p db'.users ≡ some locked =
      find-alter p (λ u. u.id == user.id) user locked db.users found (ground arith)
        (find-holds p user db.users found) in
    let until = now + min (15 * 2 ^ (user.failed_login_attempts + 1 - 5)) 1440 * minute in
    subst (λ d. login x later m email password d ≡ (refused locked_out, d)) (sym wrote)
      (login-found x later m email password locked db' found'
        ∙ login_user-locked x later m until password locked db'
            (lockout_until-some now (user.failed_login_attempts + 1) (omega (arith, many)))
            (omega (arith, h, pow-pos (user.failed_login_attempts + 1 - 5))))
