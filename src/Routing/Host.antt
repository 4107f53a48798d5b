-- ===== src/Routing/Host.antt =====
-- src/routing/HostNormalizer.cpp. A view with a start position is the rest of the view from there;
-- `find` and the two `substr` around the place found are one function.
pub mod Port
pub mod Lower
pub mod CaseFree
pub mod Forms
pub mod Normal
mod Tests
use mathlib.Core.List.{map}
use model_lib.Base.Bytes.{
  Bytes, is_digit, is_alnum, is_xdigit, to_lower, components, contains, cut, ends_in, is_empty,
  remove_last, starts_in, walk,
}
use model_lib.Base.{
  ℕ, suc, ◌+◌, ◌-◌, ◌*◌, ◌%◌, ◌^◌, Bool, true, false, not, ◌&&◌, ◌||◌, List, [], ◌∷◌, ◌++◌, Option,
  none, some, ltb, leb, ◌==◌, if◌then◌else◌, length, all, any, is_some, ◌>>=◌,
}

-- `find("::")`, likewise.
pub cut_pair : Bytes → Option (Bytes × Bytes)
cut_pair [] = none
cut_pair (c ∷ []) = none
cut_pair (c ∷ d ∷ s) =
    let rest = cut_pair (d ∷ s) in
    if c == b':' && d == b':'
    then some ([], s)
    else elim rest [ none ↦ none | some (a, b) ↦ some (c ∷ a, b) ]

-- The digits of a number read into a `std::uint32_t`.
abbrev pub shift_in : ℕ → ℕ → ℕ
shift_in value c = (value * 10 + (c - b'0')) % 2 ^ 32

pub port_digits : ℕ → Bytes → Bool
port_digits value [] = true
port_digits value (c ∷ s) =
    let value' = shift_in value c in
    let rest = port_digits value' s in
    if not (is_digit c) then false else if ltb 65535 value' then false else rest

pub valid_port : Bytes → Bool
valid_port port = if is_empty port then false else port_digits 0 port

pub number : ℕ → Bytes → Option ℕ
number value [] = some value
number value (c ∷ s) =
    let rest = number (shift_in value c) s in if not (is_digit c) then none else rest

abbrev pub at_most_255 : Option ℕ → Bool
at_most_255 none = false
at_most_255 (some value) = not (ltb 255 value)

pub ipv4_component : Bytes → Bool
ipv4_component s = if is_empty s || ltb 3 (length s) then false else at_most_255 (number 0 s)

pub count_ipv4 : ℕ → List (Bytes × Bool) → Option ℕ
count_ipv4 count [] = some count
count_ipv4 count ((s, last) ∷ rest) =
    let more = count_ipv4 (suc count) rest in if ipv4_component s then more else none

abbrev pub is_count : Option ℕ → ℕ → Bool
is_count none n = false
is_count (some count) n = count == n

pub valid_ipv4_address : Bytes → Bool
valid_ipv4_address s = is_count (count_ipv4 0 (components b'.' s)) 4

-- One group: how much it adds to the count, `none` where the source returns `false`.
pub ipv6_group : Bool → Bool → Bytes → Option ℕ
ipv6_group allow_ipv4_tail last s =
    if is_empty s
    then none
    else if contains b'.' s
    then (if not allow_ipv4_tail || not last || not (valid_ipv4_address s) then none else some 2)
    else if ltb 4 (length s) || not (all is_xdigit s)
    then none
    else some 1

pub add_groups : Bool → ℕ → List (Bytes × Bool) → Option ℕ
add_groups tail count [] = some count
add_groups tail count ((s, last) ∷ rest) = do
  n ← ipv6_group tail last s
  add_groups tail (count + n) rest

pub count_ipv6_groups : Bytes → ℕ → Bool → Option ℕ
count_ipv6_groups sequence count tail =
    if is_empty sequence
    then some count
    else if ends_in b':' sequence
    then none
    else add_groups tail count (components b':' sequence)

abbrev pub below_eight : Option ℕ → Bool
below_eight none = false
below_eight (some count) = ltb count 8

-- Both sides of `::`.
pub compressed_groups : Bytes → Bytes → Option ℕ
compressed_groups left right = do
  count ← count_ipv6_groups left 0 false
  count_ipv6_groups right count true

-- What `find("::")` found in the literal.
pub literal_groups : Bytes → Option (Bytes × Bytes) → Bool
literal_groups literal none = is_count (count_ipv6_groups literal 0 true) 8
literal_groups literal (some (left, right)) =
    if is_some (cut_pair right) then false else below_eight (compressed_groups left right)

pub valid_ipv6_literal : Bytes → Bool
unfolding literal_groups
valid_ipv6_literal literal =
    if is_empty literal then false else literal_groups literal (cut_pair literal)

pub dns_label : Bytes → Bool
dns_label s =
    if is_empty s || ltb 63 (length s) || starts_in b'-' s || ends_in b'-' s
    then false
    else all (λ c. is_alnum c || c == b'-') s

abbrev pub all_labels : List (Bytes × Bool) → Bool
all_labels = all (λ p. dns_label p.0)

pub valid_dns_name : Bytes → Bool
valid_dns_name host =
    if is_empty host || ltb 253 (length host) || ends_in b'.' host
    then false
    else all_labels (components b'.' host)

abbrev pub lower : Bytes → Bytes
lower = map to_lower

-- What may stand behind the closing bracket.
pub valid_remainder : Bool → Bytes → Bool
valid_remainder allow_port [] = true
valid_remainder allow_port (c ∷ port) = allow_port && c == b':' && valid_port port

pub bracketed : Bool → Option (Bytes × Bytes) → Option Bytes
bracketed allow_port none = none
bracketed allow_port (some (host, remainder)) =
    if not (valid_remainder allow_port remainder)
    then none
    else if valid_ipv6_literal host
    then some (lower host)
    else none

-- The name without the one dot that may end it.
abbrev pub undotted : Bytes → Bytes
undotted host = if ends_in b'.' host then remove_last host else host

pub normalize_name : Bytes → Option Bytes
normalize_name host = if valid_dns_name (undotted host) then some (lower (undotted host)) else none

-- What `find(':')` found in an authority with no bracket.
pub plain : Bool → Bytes → Option (Bytes × Bytes) → Option Bytes
plain allow_port authority none = normalize_name authority
plain allow_port authority (some (host, port)) =
    if not allow_port || contains b':' port
    then none
    else if not (valid_port port)
    then none
    else normalize_name host

abbrev pub invalid_character : ℕ → Bool
invalid_character c = leb c 0x20 || leb 0x7F c

pub normalize : Bytes → Bool → Option Bytes
normalize [] allow_port = none
normalize (c ∷ s) allow_port =
    if any invalid_character (c ∷ s)
    then none
    else if c == b'['
    then bracketed allow_port (cut b']' s)
    else plain allow_port (c ∷ s) (cut b':' (c ∷ s))

unfoldable pub normalize_authority : Bytes → Option Bytes
unfolding normalize plain bracketed normalize_name valid_remainder valid_dns_name valid_ipv6_literal
    valid_port dns_label cut ends_in remove_last components walk
normalize_authority authority = normalize authority true

unfoldable pub normalize_domain : Bytes → Option Bytes
unfolding normalize plain bracketed normalize_name valid_remainder valid_dns_name valid_ipv6_literal
    valid_port dns_label cut ends_in remove_last components walk
normalize_domain domain = normalize domain false
