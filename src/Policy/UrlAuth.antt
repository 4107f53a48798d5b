-- ===== src/Policy/UrlAuth.antt =====
-- src/policy/UrlAuthenticator.{hpp,cpp}. OpenSSL's digest and comparison are parameters.
pub mod Query
pub mod Time
pub mod Cleaning
pub mod Soundness
pub mod Config
mod Tests
use mathlib.Core.List.{map}
use model_lib.Base.Bytes.{
  decimal, Bytes, codes, equal, is_digit, is_alnum, is_empty, contains, cut, starts_with,
}
use model_lib.Base.{
  ℕ, ◌+◌, ◌-◌, ◌*◌, ◌/◌, ◌%◌, ◌≡◌, ◌↔◌, Bool, true, false, not, ◌&&◌, ◌||◌, List, [], ◌∷◌, ◌++◌,
  Option, none, some, ltb, leb, ◌==◌, if◌then◌else◌, length, all, any, ◌>>=◌,
}
use Query.{parse_query, ParsedQuery, cleaned_target}
use Time.{ℤ, fresh}

pub data UrlAuthScope : Type 0 where
  every specified : UrlAuthScope

pub data UrlAuthMatch : Type 0 where
  exact prefix : UrlAuthMatch

pub record UrlAuthUriSpec : Type 0 where
  pub path : Bytes
  pub match : UrlAuthMatch

pub record UrlAuthSpec : Type 0 where
  pub enabled : Bool
  pub scope : UrlAuthScope
  pub primary_key : Bytes
  pub backup_key : Bytes
  pub validity_seconds : ℕ
  pub protected_uris : List UrlAuthUriSpec

pub record UrlAuthResult : Type 0 where
  pub allowed : Bool
  pub authentication_applied : Bool
  pub rewritten_target : Bytes

-- `EVP_Digest…` with MD5: the digest, or a failure; and `CRYPTO_memcmp(a, b) == 0` for arrays of one
-- size, which is documented to hold exactly when they are equal.
pub record Crypto : Type 0 where
  pub md5 : Bytes → Option Bytes
  pub memcmp_zero : Bytes → Bytes → Bool
  pub memcmp_zero_iff : (a b : Bytes) → length a ≡ length b → (memcmp_zero a b ≡ true) ↔ (a ≡ b)

unfoldable pub valid_key : Bytes → Bool
valid_key key = is_empty key || (leb 6 (length key) && leb (length key) 128 && all is_alnum key)

abbrev path_character : ℕ → Bool
path_character c = not (leb c 0x20 || c == 0x7F)

pub valid_path : Bytes → Bool
valid_path [] = false
valid_path (c ∷ s) =
    leb (length (c ∷ s)) 8192
    && c == b'/'
    && not (any (λ d. d == b'?' || d == b'#') (c ∷ s))
    && all path_character (c ∷ s)

pub lower_hex_digest : Bytes → Bool
lower_hex_digest value =
    length value == 32 && all (λ c. is_digit c || (leb b'a' c && leb c b'f')) value

abbrev pub hex_digit : ℕ → ℕ
hex_digit n = if ltb n 10 then b'0' + n else b'a' + (n - 10)

pub to_hex : Bytes → Bytes
to_hex [] = []
to_hex (b ∷ bs) = hex_digit (b / 16) ∷ hex_digit (b % 16) ∷ to_hex bs

-- What makes a configuration invalid, in the order of the checks.
pub data SpecError : Type 0 where
  bad_validity bad_key no_key too_many_uris bad_path duplicate_rule no_uris : SpecError

unfoldable pub rule_key : UrlAuthUriSpec → Bytes
rule_key r = elim r.match [ prefix ↦ codes "prefix:" ++ r.path | exact ↦ codes "exact:" ++ r.path ]

-- The loop over the rules, with the keys seen so far.
pub check_rules : List Bytes → List UrlAuthUriSpec → Option SpecError
unfolding rule_key
check_rules seen [] = none
check_rules seen (r ∷ rs) =
    let rest = check_rules (rule_key r ∷ seen) rs in
    if not (valid_path r.path)
    then some bad_path
    else if any (equal (rule_key r)) seen
    then some duplicate_rule
    else rest

abbrev is_specified : UrlAuthScope → Bool
is_specified every = false
is_specified specified = true

abbrev none_listed : List UrlAuthUriSpec → Bool
none_listed [] = true
none_listed (r ∷ rs) = false

abbrev pub keep_error : Option SpecError → Option SpecError → Option SpecError
keep_error none later = later
keep_error (some e) later = some e

-- The constructor: the error that it throws, if any.
unfoldable pub check_spec : UrlAuthSpec → Option SpecError
unfolding check_rules
check_spec s =
    if s.validity_seconds == 0 || ltb 31536000 s.validity_seconds
    then some bad_validity
    else if not (valid_key s.primary_key) || not (valid_key s.backup_key)
    then some bad_key
    else if s.enabled && is_empty s.primary_key && is_empty s.backup_key
    then some no_key
    else if ltb 200 (length s.protected_uris)
    then some too_many_uris
    else keep_error (check_rules [] s.protected_uris) (
        if s.enabled && is_specified s.scope && none_listed s.protected_uris
        then some no_uris
        else none)

pub rule_matches : Bytes → UrlAuthUriSpec → Bool
rule_matches path r = elim r.match [ exact ↦ equal path r.path | prefix ↦ starts_with r.path path ]

pub protects : UrlAuthSpec → Bytes → Bool
unfolding rule_matches
protects s path = elim s.scope [
  | every ↦ true
  | specified ↦ any (rule_matches path) s.protected_uris
]

-- The four fields of the credential.
pub record AuthKey : Type 0 where
  pub timestamp : Bytes
  pub random : Bytes
  pub uid : Bytes
  pub digest : Bytes

-- The three dashes, and no fourth.
pub split_key : Bytes → Option AuthKey
split_key key = do
  (timestamp, r) ← cut b'-' key
  (random, u) ← cut b'-' r
  (uid, digest) ← cut b'-' u
  if contains b'-' digest
      then none
      else some (record { timestamp = timestamp; random = random; uid = uid; digest = digest })

pub well_formed : AuthKey → Bool
well_formed k = not (
    not (length k.timestamp == 10)
    || is_empty k.random
    || is_empty k.uid
    || not (all is_digit k.timestamp)
    || not (lower_hex_digest k.digest))

pub signing_text : Bytes → AuthKey → Bytes → Bytes
signing_text path k key =
    path ++ b'-' ∷ (k.timestamp ++ b'-' ∷ (k.random ++ b'-' ∷ (k.uid ++ b'-' ∷ key)))

abbrev pub allow : UrlAuthResult
allow = record { allowed = true; authentication_applied = false; rewritten_target = [] }

abbrev pub denied : UrlAuthResult
denied = record { allowed = false; authentication_applied = true; rewritten_target = [] }

pub split_found : Bytes → Option (Bytes × Bytes) → Bytes × Option Bytes
split_found target none = (target, none)
split_found target (some (path, query)) = (path, some query)

-- The target up to the first `?`, and what is behind it.
unfoldable pub split_target : Bytes → Bytes × Option Bytes
unfolding split_found
split_target target = split_found target (cut b'?' target)

module _ (crypto : Crypto) where
  abbrev sized : Bytes → Option Bytes
  sized digest = if length digest == 16 then some (to_hex digest) else none

  pub md5_hex : Bytes → Option Bytes
  md5_hex text = do digest ← crypto.md5 text; sized digest

  pub digest_matches : Bytes → Bytes → Bool
  digest_matches candidate expected =
      length candidate == length expected && crypto.memcmp_zero candidate expected

  abbrev agrees : Bytes → Option Bytes → Bool
  agrees digest none = false
  agrees digest (some expected) = digest_matches digest expected

  pub matches_key : Bytes → AuthKey → Bytes → Bool
  matches_key path k [] = false
  matches_key path k (c ∷ key) = agrees k.digest (md5_hex (signing_text path k (c ∷ key)))

  -- The checks on the credential, behind those on the query.
  pub accepts : UrlAuthSpec → ℤ → Bytes → AuthKey → Bool
  accepts s now path k =
      well_formed k
      && fresh (decimal 0 k.timestamp) s.validity_seconds now
      && (matches_key path k s.primary_key || matches_key path k s.backup_key)

  abbrev accepts_key : UrlAuthSpec → ℤ → Bytes → Option AuthKey → Bool
  accepts_key s now path none = false
  accepts_key s now path (some k) = accepts s now path k

  pub authenticate_query : UrlAuthSpec → ℤ → Bytes → ParsedQuery → UrlAuthResult
  authenticate_query s now path q =
      if not (q.auth_key_count == 1) || is_empty q.auth_key
      then denied
      else if accepts_key s now path (split_key q.auth_key)
      then record {
        allowed = true;
        authentication_applied = true;
        rewritten_target = cleaned_target path q.retained_parameters;
      }
      else denied

  -- A target with the query behind `?`, if there is one.
  pub authenticate_parts : UrlAuthSpec → ℤ → Bytes → Option Bytes → UrlAuthResult
  unfolding authenticate_query
  authenticate_parts s now path query =
      if not s.enabled || not (protects s path) then allow else elim query [
        | none ↦ denied
        | some text ↦ authenticate_query s now path (parse_query text)
      ]

  pub authenticate : UrlAuthSpec → Bytes → ℤ → UrlAuthResult
  unfolding authenticate_parts
  authenticate s target now =
      let (path, query) = split_target target in authenticate_parts s now path query
