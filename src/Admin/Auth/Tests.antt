-- ===== src/Admin/Auth/Tests.antt =====
-- Runs of the service, and its theorems at concrete states. The derivation returns the password.
use model_lib.Base.Bytes.{Bytes, codes, equal, equal_iff, bytes_eq, is_empty}
use model_lib.Base.Map.{lookup, insert, erase}
use model_lib.Base.{
  ◌≡◌, ◌≢◌, ◌↔◌, ◌⊎◌, refl, ap, ◌≤◌, ◌*◌, ◌^◌, true, false, [], ◌∷◌, none, some, arith,
}
use model_lib.Admin.Auth.{
  Auth, Options, FailureBucket, PasswordCrypto, Readings, token, throws, runtime_error,
  check_rate_limit, check_bucket, login, limited, finish_login, issue_session, insert_session,
  clear_failures, purge, make_room, evict_oldest, oldest_from, to_hex, hex_pair, verify,
  compare_candidate, authorize, logout,
}
use model_lib.Admin.Auth.Users.{AdminUser, find_admin_user, same_name}
use model_lib.Admin.Auth.Bounds.{WellFormed}
use model_lib.Admin.Auth.Calls.{logs_in, call-WellFormed}
use model_lib.Admin.Auth.Access.{Authentic, Live, authorize_iff, authorize-logout, login_sound}
use model_lib.Admin.Auth.Lockout.{Attempt, attempt, attempts, attempts_lock}

abbrev plain : PasswordCrypto
plain = record {
  derive = λ password salt iterations size. some password;
  memcmp_zero = equal;
  memcmp_zero_iff = λ a b _. equal_iff a b;
}

abbrev options : Options
options = record { lifetime = 1000; maximum_active_sessions = 2 }

abbrev secret : Bytes
secret = codes "correct horse"

abbrev admin : AdminUser
admin = record {
  username = codes "Admin";
  password_salt = [];
  password_hash = secret;
  password_iterations = 310000;
}

abbrev fresh_service : Auth
fresh_service = record {
  users = admin ∷ [];
  sessions = (codes "aa", 1500) ∷ (codes "bb", 1200) ∷ [];
  buckets = [];
}

abbrev at_600 : Readings
at_600 = record { checked = 600; recorded = 601; issued = 602 }

fresh_service-WellFormed : WellFormed options fresh_service
unfolding lookup equal
fresh_service-WellFormed = record { distinct = (refl, (refl, tt)); capped = omega arith; five = tt }

-- The cap is reached, so that the session that expires first makes room.
logged_in :
    login plain options at_600
      (some (171 ∷ 5 ∷ []))
      (codes "admin")
      secret
      (codes "::1")
      fresh_service
    ≡ (
      record {
        users = admin ∷ [];
        sessions = (codes "aa", 1500) ∷ (codes "ab05", 1602) ∷ [];
        buckets = [];
      },
      token (codes "ab05"),
    )
unfolding login limited check_rate_limit check_bucket finish_login issue_session insert_session
    clear_failures purge make_room evict_oldest oldest_from to_hex hex_pair verify compare_candidate
    find_admin_user same_name lookup insert erase equal
logged_in = refl

login_sound_example :
    (check_rate_limit 600 (codes "::1") [] ≢ none)
    × Authentic plain (codes "admin") secret (admin ∷ [])
    × (lookup
          (codes "ab05")
          (login plain options at_600
            (some (171 ∷ 5 ∷ []))
            (codes "admin")
            secret
            (codes "::1")
            fresh_service).0.sessions
        ≡ some 1602)
login_sound_example =
    login_sound plain options at_600 (some (171 ∷ 5 ∷ [])) (codes "admin") secret (codes "::1")
      fresh_service (codes "ab05") (ap (λ r. r.1) logged_in)

call-WellFormed_example :
    WellFormed options
      (login plain options at_600
        (some (171 ∷ 5 ∷ []))
        (codes "admin")
        secret
        (codes "::1")
        fresh_service).0
call-WellFormed_example =
    call-WellFormed plain options (omega arith)
      (logs_in {s = fresh_service} at_600 (some (171 ∷ 5 ∷ [])) (codes "admin") secret
        (codes "::1"))
      fresh_service-WellFormed

authorize_iff_example :
    (((authorize options 1300 (codes "aa") fresh_service).1 ≡ true)
      ↔ ((is_empty (codes "aa") ≡ false) × Live 1300 (codes "aa") fresh_service))
    × (((authorize options 1300 (codes "aa") fresh_service).1 ≡ false)
        ⊎ (lookup (codes "aa") (authorize options 1300 (codes "aa") fresh_service).0.sessions
            ≡ some 2300))
authorize_iff_example =
    authorize_iff options 1300 (codes "aa") fresh_service fresh_service-WellFormed

abbrev three_failures : Auth
three_failures = record {
  users = admin ∷ [];
  sessions = [];
  buckets = (codes "::1", record { failures = 3; window_started = 0 }) ∷ [];
}

abbrev guess : Attempt
guess = record { at = at_600; random = some []; username = codes "admin"; password = codes "wrong" }

abbrev correct : Attempt
correct = record { at = at_600; random = some []; username = codes "admin"; password = secret }

attempts_lock_example :
    attempt plain options
      (codes "::1")
      correct
      (attempts plain options (codes "::1") (guess ∷ guess ∷ []) three_failures)
    ≡ (
      attempts plain options (codes "::1") (guess ∷ guess ∷ []) three_failures,
      throws runtime_error,
    )
attempts_lock_example =
    attempts_lock plain options (codes "::1") (guess ∷ guess ∷ []) correct 0 3 three_failures
      (omega arith) (omega arith) (wrong, (wrong, tt)) bucket (omega arith)
  where
    wrong :
        (verify plain (codes "wrong") (find_admin_user (codes "admin") (admin ∷ [])) ≡ some false)
        × (600 ≤ 300 * 10 ^ 9)
        × (601 ≤ 300 * 10 ^ 9)
    wrong = (
      unfold verify compare_candidate find_admin_user same_name equal in refl,
      omega arith,
      omega arith,
    )

    bucket :
        (b : FailureBucket) × (lookup (codes "::1") three_failures.buckets ≡ some b)
        × (b.failures ≡ 3)
        × (b.window_started ≡ 0)
    bucket = (record { failures = 3; window_started = 0 }, unfold lookup equal in refl, refl, refl)

authorize-logout_example :
    (authorize options 700 (codes "aa") (logout (codes "aa") fresh_service)).1 ≡ false
authorize-logout_example = authorize-logout options 700 (codes "aa") fresh_service
