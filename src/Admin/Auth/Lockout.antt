-- ===== src/Admin/Auth/Lockout.antt =====
-- src/admin/AuthService.cpp: five failures within five minutes lock an address.
use model_lib.Base.Bytes.{Bytes, bytes_eq}
use model_lib.Base.Map.{lookup, lookup-insert}
use model_lib.Base.{
  ℕ, suc, ◌+◌, ◌-◌, ◌≤◌, ◌<◌, ◌≡◌, refl, sym, subst, true, false, ◌||◌, ◌==◌, List, [], ◌∷◌, Option,
  some, arith, length, All, leb, ltb,
}
use model_lib.Admin.Auth.{
  Auth, Options, FailureBucket, PasswordCrypto, Readings, Reply, throws, runtime_error, window_over,
  check_bucket, check_rate_limit, fail_once, record_failure, limited, finish_login, login, verify,
  five_minutes,
}
use model_lib.Admin.Auth.Users.{AdminUser, find_admin_user}

-- A login from the address with a name and a password that do not match, with its readings no more
-- than five minutes after the start of the window.
pub record Attempt : Type 0 where
  pub at : Readings
  pub random : Option Bytes
  pub username : Bytes
  pub password : Bytes

module _ (crypto : PasswordCrypto) (o : Options) (ip : Bytes) where
  unfoldable pub attempt : Attempt → Auth → Auth × Reply
  attempt a s = login crypto o a.at a.random a.username a.password ip s

  unfoldable pub attempts : List Attempt → Auth → Auth
  attempts [] s = s
  attempts (a ∷ tries) s = attempts tries (attempt a s).0

  abbrev pub Wrong : List AdminUser → ℕ → Attempt → Type 0
  Wrong users started a =
      (verify crypto a.password (find_admin_user a.username users) ≡ some false)
      × (a.at.checked - started ≤ five_minutes)
      × (a.at.recorded - started ≤ five_minutes)

  -- The bucket of the address.
  abbrev pub Bucket : ℕ → ℕ → Auth → Type 0
  Bucket n started s =
      (b : FailureBucket) × (lookup ip s.buckets ≡ some b)
      × (b.failures ≡ n)
      × (b.window_started ≡ started)

  open_window :
      (now started n : ℕ) (s : Auth)
      → now - started ≤ five_minutes
      → n < 5
      → Bucket n started s
      → check_rate_limit now ip s.buckets ≡ some s.buckets
  unfolding check_rate_limit check_bucket window_over
  open_window now started n s early few (b, at, count, start) =
      rw at (ground (arith, early, few, count, start))

  -- In a window that is not over, five failures lock the address: no name, no password and no
  -- random bytes make `login` return a token, and the service is left as it was.
  locked :
      (a : Attempt) (started : ℕ) (s : Auth)
      → a.at.checked - started ≤ five_minutes
      → Bucket 5 started s
      → attempt a s ≡ (s, throws runtime_error)
  unfolding attempt login limited check_rate_limit check_bucket window_over
  locked a started s early (b, at, count, start) =
      let inside : ltb five_minutes (a.at.checked - b.window_started) ≡ false =
        ground (arith, early, start) in
      let full : leb 5 b.failures ≡ true = ground (arith, count) in rw (at, inside, full) refl

  one_more :
      (a : Attempt) (started n : ℕ) (s : Auth)
      → 0 < n
      → n < 5
      → Wrong s.users started a
      → Bucket n started s
      → Bucket (suc n) started (attempt a s).0 × ((attempt a s).0.users ≡ s.users)
  unfolding attempt login limited finish_login record_failure
  one_more a started n s some_failed few (wrong, early, still) (b, at, count, start) =
      let passed = open_window a.at.checked started n s early few (b, at, count, start) in
      rw (passed, wrong)
        (
          (
            fail_once a.at.recorded (lookup ip s.buckets),
            ground (
              arith,
              lookup-insert ip ip (fail_once a.at.recorded (lookup ip s.buckets)) s.buckets,
              bytes_eq.beq_iff ip ip,
            ),
            counted,
            kept,
          ),
          refl,
        )
    where
      inside : (b.failures == 0 || window_over a.at.recorded b) ≡ false
      inside = unfold window_over in ground (arith, still, start, count, some_failed)

      counted : (fail_once a.at.recorded (lookup ip s.buckets)).failures ≡ suc n
      counted = unfold fail_once in rw (at, inside) (omega (arith, count, few))

      kept : (fail_once a.at.recorded (lookup ip s.buckets)).window_started ≡ started
      kept = unfold fail_once in rw (at, inside) start

  counts :
      (tries : List Attempt) (started n : ℕ) (s : Auth)
      → 0 < n
      → n + length tries ≡ 5
      → All (Wrong s.users started) tries
      → Bucket n started s
      → Bucket 5 started (attempts tries s)
  unfolding attempts
  counts [] started n s some_failed sum wrong bucket =
      let five : n ≡ 5 = omega (arith, sum) in subst (λ k. Bucket k started s) five bucket
  counts (a ∷ tries) started n s some_failed sum wrong bucket =
      let (next, users) = one_more a started n s some_failed (omega (arith, sum)) wrong.0 bucket in
      counts tries started (suc n) (attempt a s).0 (omega arith) (omega (arith, sum))
        (subst (λ us. All (Wrong us started) tries) (sym users) wrong.1) next

  -- After a first failure on record and failing logins that make it five, all of them within five
  -- minutes of the start of the window, a further login in the window is refused, whatever its
  -- name and password are, and changes nothing.
  pub attempts_lock :
      (tries : List Attempt) (a : Attempt) (started n : ℕ) (s : Auth)
      → 0 < n
      → n + length tries ≡ 5
      → All (Wrong s.users started) tries
      → Bucket n started s
      → a.at.checked - started ≤ five_minutes
      → attempt a (attempts tries s) ≡ (attempts tries s, throws runtime_error)
  attempts_lock tries a started n s some_failed sum wrong bucket early =
      locked a started (attempts tries s) early
        (counts tries started n s some_failed sum wrong bucket)
