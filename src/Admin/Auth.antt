-- ===== src/Admin/Auth.antt =====
-- src/admin/AuthService.{hpp,cpp}: administrators' sessions and the limit on failed logins. Each
-- function is one call under the mutex. Readings of the steady clock are in nanoseconds, in the
-- order in which the call takes them; the bytes of `RAND_bytes` are an argument, `none` when it
-- fails. The users are in Users.
pub mod Users
pub mod Sessions
pub mod Bounds
pub mod Calls
pub mod Access
pub mod Lockout
mod Tests
use model_lib.Base.Bytes.{Bytes, codes, is_empty, is_alnum, bytes_eq}
use model_lib.Base.Map.{Map, lookup, insert, erase}
use model_lib.Base.{
  ℕ, suc, ◌+◌, ◌-◌, ◌*◌, ◌/◌, ◌%◌, ◌^◌, Bool, true, false, not, ◌&&◌, ◌||◌, List, [], ◌∷◌, ◌++◌,
  Option, none, some, ltb, leb, ◌==◌, if◌then◌else◌, length, all, ◌≡◌, ◌↔◌, ◌>>=◌,
}
use model_lib.Admin.Auth.Users.{AdminUser, admin_user_count, find_admin_user, create_admin_user}

-- OpenSSL: `PKCS5_PBKDF2_HMAC` with SHA-256, of a password, a salt, a count and a length of the
-- output, and `CRYPTO_memcmp` compared with 0.
pub record PasswordCrypto : Type 0 where
  pub derive : Bytes → Bytes → ℕ → ℕ → Option Bytes
  pub memcmp_zero : Bytes → Bytes → Bool
  pub memcmp_zero_iff : (a b : Bytes) → length a ≡ length b → (memcmp_zero a b ≡ true) ↔ (a ≡ b)

-- `AuthSessionOptions`, of which the lifetime is in nanoseconds.
pub record Options : Type 0 where
  pub lifetime : ℕ
  pub maximum_active_sessions : ℕ

pub record FailureBucket : Type 0 where
  pub failures : ℕ
  pub window_started : ℕ

-- A session is the time at which it expires.
pub record Auth : Type 0 where
  pub users : List AdminUser
  pub sessions : Map Bytes ℕ
  pub buckets : Map Bytes FailureBucket

-- What a call throws, by the type of the exception.
pub data AuthError : Type 0 where
  invalid_argument logic_error runtime_error : AuthError

pub data Reply : Type 0 where
  token : Bytes → Reply
  throws : AuthError → Reply

-- The constructor's checks.
unfoldable pub options_valid : Options → Bool
options_valid o = ltb 0 o.lifetime && ltb 0 o.maximum_active_sessions

abbrev pub five_minutes : ℕ
five_minutes = 300 * 10 ^ 9

unfoldable pub hex_pair : ℕ → Bytes
hex_pair b = hex_digit (b / 16) ∷ hex_digit (b % 16) ∷ []
  where
    hex_digit : ℕ → ℕ
    hex_digit n = if ltb n 10 then b'0' + n else b'a' + (n - 10)

unfoldable pub to_hex : Bytes → Bytes
to_hex [] = []
to_hex (b ∷ bs) = hex_pair b ++ to_hex bs

unfoldable pub valid_credentials : Bytes → Bytes → Bool
valid_credentials username password =
    (leb 3 (length username)
      && leb (length username) 64
      && all (λ c. is_alnum c || c == b'_' || c == b'-') username)
    && (leb 12 (length password) && leb (length password) 256)

-- `now - started > 5min`.
unfoldable pub window_over : ℕ → FailureBucket → Bool
window_over now b = ltb five_minutes (now - b.window_started)

-- `check_rate_limit`: the buckets that it leaves, or `none` when it throws.
unfoldable pub check_bucket :
    ℕ → Bytes → Option FailureBucket → Map Bytes FailureBucket → Option (Map Bytes FailureBucket)
check_bucket now remote_ip none buckets = some buckets
check_bucket now remote_ip (some b) buckets =
    if window_over now b
    then some (erase remote_ip buckets)
    else (if leb 5 b.failures then none else some buckets)

unfoldable pub check_rate_limit :
    ℕ → Bytes → Map Bytes FailureBucket → Option (Map Bytes FailureBucket)
check_rate_limit now remote_ip buckets =
    check_bucket now remote_ip (lookup remote_ip buckets) buckets

-- The bucket after one more failure; `failures` is an `unsigned int`.
unfoldable pub fail_once : ℕ → Option FailureBucket → FailureBucket
fail_once now none = record { failures = 1; window_started = now }
fail_once now (some b) =
    if b.failures == 0 || window_over now b
    then record { failures = 1; window_started = now }
    else record { failures = (b.failures + 1) % 2 ^ 32; window_started = b.window_started }

unfoldable pub record_failure : ℕ → Bytes → Map Bytes FailureBucket → Map Bytes FailureBucket
record_failure now remote_ip buckets =
    insert remote_ip (fail_once now (lookup remote_ip buckets)) buckets

unfoldable pub purge : ℕ → Map Bytes ℕ → Map Bytes ℕ
purge now [] = []
purge now ((k, expires_at) ∷ m) =
    if leb expires_at now then purge now m else (k, expires_at) ∷ purge now m

-- `std::min_element`: the first of the entries that expire first.
unfoldable pub oldest_from : Bytes → ℕ → Map Bytes ℕ → Bytes
oldest_from k e [] = k
oldest_from k e ((j, f) ∷ m) = if ltb f e then oldest_from j f m else oldest_from k e m

unfoldable pub evict_oldest : Map Bytes ℕ → Map Bytes ℕ
evict_oldest [] = []
evict_oldest ((k, e) ∷ m) = erase (oldest_from k e m) ((k, e) ∷ m)

unfoldable pub make_room : ℕ → Map Bytes ℕ → Map Bytes ℕ
make_room maximum m = if leb maximum (length m) then evict_oldest m else m

unfoldable pub insert_session : Options → ℕ → Option Bytes → Auth → Auth × Reply
insert_session o now none s = (s, throws runtime_error)
insert_session o now (some bytes) s = (
  record s { sessions = insert (to_hex bytes) (now + o.lifetime) s.sessions },
  token (to_hex bytes),
)

unfoldable pub issue_session : Options → ℕ → Option Bytes → Auth → Auth × Reply
issue_session o now random s =
    insert_session o now random
      (record s { sessions = make_room o.maximum_active_sessions (purge now s.sessions) })

unfoldable pub clear_failures : Bytes → Auth → Auth
clear_failures remote_ip s = record s { buckets = erase remote_ip s.buckets }

-- The `try` of `login`: `none` when the derivation throws, which nothing catches.
unfoldable pub compare_candidate : PasswordCrypto → Bytes → Option Bytes → Option Bool
compare_candidate crypto hash none = none
compare_candidate crypto hash (some candidate) =
    some (length candidate == length hash && crypto.memcmp_zero candidate hash)

unfoldable pub verify : PasswordCrypto → Bytes → Option AdminUser → Option Bool
verify crypto password none = some false
verify crypto password (some u) =
    compare_candidate crypto u.password_hash
      (crypto.derive password u.password_salt u.password_iterations (length u.password_hash))

unfoldable pub finish_login :
    Options → ℕ → ℕ → Bytes → Option Bytes → Option Bool → Auth → Auth × Reply
finish_login o recorded issued remote_ip random none s = (s, throws runtime_error)
finish_login o recorded issued remote_ip random (some false) s =
    (record s { buckets = record_failure recorded remote_ip s.buckets }, throws invalid_argument)
finish_login o recorded issued remote_ip random (some true) s =
    issue_session o issued random (clear_failures remote_ip s)

unfoldable pub limited :
    Option (Map Bytes FailureBucket) → Auth → (Auth → Auth × Reply) → Auth × Reply
limited none s continue = (s, throws runtime_error)
limited (some buckets) s continue = continue (record s { buckets = buckets })

-- The readings of one call: of `check_rate_limit`, `record_failure` and `issue_session`.
pub record Readings : Type 0 where
  pub checked : ℕ
  pub recorded : ℕ
  pub issued : ℕ

unfoldable pub login :
    PasswordCrypto → Options → Readings → Option Bytes → Bytes → Bytes → Bytes → Auth → Auth × Reply
login crypto o at random username password remote_ip s =
    limited (check_rate_limit at.checked remote_ip s.buckets) s (
      finish_login o at.recorded at.issued remote_ip random
        (verify crypto password (find_admin_user username s.users)))

unfoldable pub store_admin :
    Options → ℕ → Option Bytes → Bytes → Option (List AdminUser) → Auth → Auth × Reply
store_admin o issued random remote_ip none s = (s, throws runtime_error)
store_admin o issued random remote_ip (some users) s =
    issue_session o issued random (clear_failures remote_ip (record s { users = users }))

unfoldable pub admin_record : Bytes → Bytes → Bytes → AdminUser
admin_record username salt hash = record {
  username = username;
  password_salt = salt;
  password_hash = hash;
  password_iterations = 310000;
}

unfoldable pub derive_admin :
    PasswordCrypto → Bytes → Bytes → Option Bytes → List AdminUser → Option (List AdminUser)
derive_admin crypto username password none users = none
derive_admin crypto username password (some salt) users = do
  hash ← crypto.derive password salt 310000 32
  create_admin_user (admin_record username salt hash) users

unfoldable pub first_admin :
    PasswordCrypto
    → Options
    → ℕ
    → Option Bytes
    → Option Bytes
    → Bytes
    → Bytes
    → Bytes
    → Auth
    → Auth × Reply
first_admin crypto o issued salt random username password remote_ip s =
    if admin_user_count s.users == 0
    then store_admin o issued random remote_ip (derive_admin crypto username password salt s.users)
        s
    else (s, throws logic_error)

unfoldable pub create_first_admin :
    PasswordCrypto
    → Options
    → Readings
    → Option Bytes
    → Option Bytes
    → Bytes
    → Bytes
    → Bytes
    → Auth
    → Auth × Reply
create_first_admin crypto o at salt random username password remote_ip s =
    if valid_credentials username password
    then limited (check_rate_limit at.checked remote_ip s.buckets) s
        (first_admin crypto o at.issued salt random username password remote_ip)
    else (s, throws invalid_argument)

unfoldable pub extend_session : Option ℕ → Options → ℕ → Bytes → Map Bytes ℕ → Map Bytes ℕ × Bool
extend_session none o now name m = (m, false)
extend_session (some e) o now name m = (insert name (now + o.lifetime) m, true)

unfoldable pub authorize : Options → ℕ → Bytes → Auth → Auth × Bool
authorize o now name s =
    if is_empty name
    then (s, false)
    else (let live = purge now s.sessions in
        let r = extend_session (lookup name live) o now name live in
        (record s { sessions = r.0 }, r.1))

unfoldable pub logout : Bytes → Auth → Auth
logout name s = record s { sessions = erase name s.sessions }

unfoldable pub setup_required : Auth → Bool
setup_required s = admin_user_count s.users == 0
