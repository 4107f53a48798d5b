-- ===== src/Policy/Request/Text.antt =====
-- src/policy/RequestPolicy.cpp: the helpers on text.
use model_lib.Base.Bytes.{
  Bytes, codes, equal, cut, strip, starts_with, ends_in, starts_in, remove_last, is_empty, is_alnum,
  to_lower, contains,
}
use model_lib.Base.{
  ℕ, suc, ◌+◌, ◌-◌, Bool, true, false, not, ◌&&◌, ◌||◌, [], ◌∷◌, ◌++◌, Option, none, some, ltb, leb,
  ◌==◌, if◌then◌else◌, length, drop, map, all, any,
}
use model_lib.Routing.Host.{normalize_domain, normalize_authority}
use model_lib.Routing.Router.{under}

unfoldable pub ascii_lower : Bytes → Bytes
ascii_lower value = map to_lower value

-- `s.ends_with(p)`.
unfoldable pub ends_with_text : Bytes → Bytes → Bool
ends_with_text p s = leb (length p) (length s) && equal (drop (length s - length p) s) p

-- `s.find(p) != npos`.
unfoldable pub has_part : Bytes → Bytes → Bool
has_part p [] = is_empty p
has_part p (c ∷ s) = starts_with p (c ∷ s) || has_part p s

unfoldable pub match_pattern : Bytes → Option Bytes → Bytes → Bool
match_pattern pattern none host = equal pattern host
match_pattern pattern (some suffix) host = under suffix host

unfoldable pub wildcard_host_matches : Bytes → Bytes → Bool
wildcard_host_matches pattern host = match_pattern pattern (strip (codes "*.") pattern) host

-- `normalized_host_pattern`, `none` when it throws.
unfoldable pub domain_pattern : Bool → Option Bytes → Option Bytes
domain_pattern wildcard none = none
domain_pattern false (some domain) = some domain
domain_pattern true (some domain) =
    if contains b'.' domain then some (codes "*." ++ domain) else none

unfoldable pub stripped_pattern : Bytes → Option Bytes → Option Bytes
stripped_pattern pattern none = domain_pattern false (normalize_domain pattern)
stripped_pattern pattern (some rest) = domain_pattern true (normalize_domain rest)

unfoldable pub normalized_host_pattern : Bytes → Option Bytes
normalized_host_pattern pattern = stripped_pattern pattern (strip (codes "*.") pattern)

unfoldable pub target_parts : Bytes → Option (Bytes × Bytes) → Bytes × Bytes
target_parts target none = (target, [])
target_parts target (some (path, query)) = (path, query)

unfoldable pub split_target : Bytes → Bytes × Bytes
split_target target = target_parts target (cut b'?' target)

-- `find_last_of` of one character.
unfoldable pub find_last : ℕ → Bytes → Option ℕ
find_last c [] = none
find_last c (d ∷ s) = further (find_last c s) (d == c)
  where
    further : Option ℕ → Bool → Option ℕ
    further (some i) here = some (suc i)
    further none true = some 0
    further none false = none

unfoldable pub before_slash : ℕ → Option ℕ → Bool
before_slash dot none = false
before_slash dot (some slash) = ltb dot slash

unfoldable pub extension_at : Bytes → Option ℕ → Option ℕ → Bytes
extension_at path none slash = []
extension_at path (some dot) slash =
    if before_slash dot slash || leb (length path) (dot + 1)
    then []
    else ascii_lower (drop (dot + 1) path)

unfoldable pub target_extension : Bytes → Bytes
target_extension target =
    let path = (split_target target).0 in
    extension_at path (find_last b'.' path) (find_last b'/' path)

-- The text before the first of these characters.
unfoldable pub until_any : Bytes → Bytes → Bytes
until_any stops [] = []
until_any stops (c ∷ s) = if contains c stops then [] else c ∷ until_any stops s

-- `find("://")`, with what stands before and behind it.
unfoldable pub split_scheme : Bytes → Option (Bytes × Bytes)
split_scheme [] = none
split_scheme (c ∷ s) = found (strip (codes "://") (c ∷ s)) (split_scheme s)
  where
    found : Option Bytes → Option (Bytes × Bytes) → Option (Bytes × Bytes)
    found (some rest) later = some ([], rest)
    found none none = none
    found none (some (scheme, rest)) = some (c ∷ scheme, rest)

unfoldable pub authority_host : Option (Bytes × Bytes) → Option Bytes
authority_host none = none
authority_host (some (scheme, rest)) =
    if equal (ascii_lower scheme) (codes "http") || equal (ascii_lower scheme) (codes "https")
    then normalize_authority (until_any (codes "/?#") rest)
    else none

unfoldable pub referer_host : Bytes → Option Bytes
referer_host text = authority_host (split_scheme text)

unfoldable pub valid_redirect_status : ℕ → Bool
valid_redirect_status status = status == 301 || status == 302 || status == 307 || status == 308

unfoldable pub valid_redirect_destination : Bytes → Bool
valid_redirect_destination destination =
    not (
      is_empty destination
      || ltb 4096 (length destination)
      || any (λ c. leb c 0x20 || leb 0x7F c) destination)
    && (starts_in b'/' destination
        || starts_with (codes "http://") destination
        || starts_with (codes "https://") destination)

unfoldable pub valid_header_name : Bytes → Bool
valid_header_name name =
    not (is_empty name || ltb 128 (length name))
    && all (λ c. is_alnum c || contains c (codes "!#$%&'*+-.^_`|~")) name

unfoldable pub append_path : Bytes → Bytes → Bytes
append_path destination path =
    if is_empty path
    then destination
    else (if not (is_empty destination) && ends_in b'/' destination && starts_in b'/' path
        then remove_last destination ++ path
        else (if not (is_empty destination)
              && not (ends_in b'/' destination)
              && not (starts_in b'/' path)
            then destination ++ b'/' ∷ path
            else destination ++ path))
