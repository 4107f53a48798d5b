-- ===== src/Routing/Host/CaseFree.antt =====
-- src/routing/HostNormalizer.cpp: `normalize` does not tell upper case from lower case.
use mathlib.Core.List.{map}
use mathlib.Core.Option
use mathlib.Core.Path.{fun_ext}
use model_lib.Base.Bytes.{Bytes, is_alnum, is_xdigit, to_lower, components, cut}
use model_lib.Base.{
  ℕ, suc, is_some, ◌>>=◌, ◌+◌, ◌≡◌, refl, ap, Bool, true, false, ◌||◌, List, [], ◌∷◌, Option, none,
  some, arith, ◌==◌, any,
}
use model_lib.Routing.Host.{
  cut_pair, shift_in, port_digits, valid_port, number, ipv4_component, count_ipv4,
  valid_ipv4_address, ipv6_group, add_groups, count_ipv6_groups, compressed_groups,
  valid_ipv6_literal, dns_label, all_labels, valid_dns_name, lower, valid_remainder, bracketed,
  plain, literal_groups, undotted, normalize_name, invalid_character, normalize,
}
use model_lib.Routing.Host.Lower.{
  dot, colon, closing, opening, hyphen, is_empty-lower, length-lower, ends_in-lower,
  starts_in-lower, remove_last-lower, all-lower, any-lower, both, cut-lower, cut_pair-lower, piece,
  components-lower,
}

number-lower : (value : ℕ) (s : Bytes) → number value (lower s) ≡ number value s
unfolding number
number-lower value [] = refl
number-lower value (c ∷ s) =
    ground (arith, number-lower (shift_in value c) s, number-lower (shift_in value (to_lower c)) s)

port_digits-lower : (value : ℕ) (s : Bytes) → port_digits value (lower s) ≡ port_digits value s
unfolding port_digits
port_digits-lower value [] = refl
port_digits-lower value (c ∷ s) = ground (arith, port_digits-lower (shift_in value c) s)

valid_port-lower : (s : Bytes) → valid_port (lower s) ≡ valid_port s
unfolding valid_port
valid_port-lower s = rw (is_empty-lower s, port_digits-lower 0 s)

ipv4_component-lower : (s : Bytes) → ipv4_component (lower s) ≡ ipv4_component s
unfolding ipv4_component
ipv4_component-lower s = rw (is_empty-lower s, length-lower s, number-lower 0 s)

count_ipv4-lower :
    (count : ℕ) (ps : List (Bytes × Bool)) → count_ipv4 count (map piece ps) ≡ count_ipv4 count ps
unfolding count_ipv4
count_ipv4-lower count [] = refl
count_ipv4-lower count ((s, last) ∷ ps) =
    rw (ipv4_component-lower s, count_ipv4-lower (suc count) ps)

valid_ipv4_address-lower : (s : Bytes) → valid_ipv4_address (lower s) ≡ valid_ipv4_address s
unfolding valid_ipv4_address
valid_ipv4_address-lower s =
    rw (components-lower b'.' s dot, count_ipv4-lower 0 (components b'.' s))

xdigit : (c : ℕ) → is_xdigit (to_lower c) ≡ is_xdigit c
xdigit c = ground arith

ipv6_group-lower :
    (tail last : Bool) (s : Bytes) → ipv6_group tail last (lower s) ≡ ipv6_group tail last s
unfolding ipv6_group
ipv6_group-lower tail last s = rw (
  is_empty-lower s,
  any-lower (λ d. d == b'.') s dot,
  valid_ipv4_address-lower s,
  length-lower s,
  all-lower is_xdigit s xdigit,
)

add_groups-lower :
    (tail : Bool) (count : ℕ) (ps : List (Bytes × Bool))
    → add_groups tail count (map piece ps) ≡ add_groups tail count ps
unfolding add_groups
add_groups-lower tail count [] = refl
add_groups-lower tail count ((s, last) ∷ ps) =
    rw (ipv6_group-lower tail last s)
      (ap (◌>>=◌ (ipv6_group tail last s)) (fun_ext λ n. add_groups-lower tail (count + n) ps))

count_ipv6_groups-lower :
    (s : Bytes) (count : ℕ) (tail : Bool)
    → count_ipv6_groups (lower s) count tail ≡ count_ipv6_groups s count tail
unfolding count_ipv6_groups
count_ipv6_groups-lower s count tail = rw (
  is_empty-lower s,
  ends_in-lower b':' s colon,
  components-lower b':' s colon,
  add_groups-lower tail count (components b':' s),
)

compressed_groups-lower :
    (a b : Bytes) → compressed_groups (lower a) (lower b) ≡ compressed_groups a b
unfolding compressed_groups
compressed_groups-lower a b = rw (count_ipv6_groups-lower a 0 false) (
    ap (◌>>=◌ (count_ipv6_groups a 0 false))
      (fun_ext λ count. count_ipv6_groups-lower b count true))

is_some-map {ℓ κ} :
    {A : Type ℓ} {B : Type κ} (f : A → B) (o : Option A) → is_some (Option.map f o) ≡ is_some o
is_some-map f none = refl
is_some-map f (some a) = refl

literal_groups-lower :
    (s : Bytes) (o : Option (Bytes × Bytes))
    → literal_groups (lower s) (Option.map both o) ≡ literal_groups s o
unfolding literal_groups
literal_groups-lower s none = rw (count_ipv6_groups-lower s 0 true)
literal_groups-lower s (some (a, b)) =
    rw (cut_pair-lower b, is_some-map both (cut_pair b), compressed_groups-lower a b)

valid_ipv6_literal-lower : (s : Bytes) → valid_ipv6_literal (lower s) ≡ valid_ipv6_literal s
unfolding valid_ipv6_literal
valid_ipv6_literal-lower s =
    rw (is_empty-lower s, cut_pair-lower s, literal_groups-lower s (cut_pair s))

label_character :
    (c : ℕ) → (is_alnum (to_lower c) || to_lower c == b'-') ≡ (is_alnum c || c == b'-')
label_character c = ground arith

dns_label-lower : (s : Bytes) → dns_label (lower s) ≡ dns_label s
unfolding dns_label
dns_label-lower s = rw (
  is_empty-lower s,
  length-lower s,
  starts_in-lower b'-' s hyphen,
  ends_in-lower b'-' s hyphen,
  all-lower (λ c. is_alnum c || c == b'-') s label_character,
)

all_labels-lower : (ps : List (Bytes × Bool)) → all_labels (map piece ps) ≡ all_labels ps
all_labels-lower [] = refl
all_labels-lower ((s, last) ∷ ps) = rw (dns_label-lower s, all_labels-lower ps)

valid_dns_name-lower : (s : Bytes) → valid_dns_name (lower s) ≡ valid_dns_name s
unfolding valid_dns_name
valid_dns_name-lower s = rw (
  is_empty-lower s,
  length-lower s,
  ends_in-lower b'.' s dot,
  components-lower b'.' s dot,
  all_labels-lower (components b'.' s),
)

pub to_lower_idem : (c : ℕ) → to_lower (to_lower c) ≡ to_lower c
to_lower_idem c = ground arith

pub lower_idem : (s : Bytes) → lower (lower s) ≡ lower s
lower_idem [] = refl
lower_idem (c ∷ s) = rw (to_lower_idem c, lower_idem s)

undotted-lower : (s : Bytes) → undotted (lower s) ≡ lower (undotted s)
undotted-lower s = ground (arith, ends_in-lower b'.' s dot, remove_last-lower s)

normalize_name-lower : (s : Bytes) → normalize_name (lower s) ≡ normalize_name s
unfolding normalize_name
normalize_name-lower s =
    rw (undotted-lower s, valid_dns_name-lower (undotted s), lower_idem (undotted s))

valid_remainder-lower : (b : Bool) (s : Bytes) → valid_remainder b (lower s) ≡ valid_remainder b s
unfolding valid_remainder
valid_remainder-lower b [] = refl
valid_remainder-lower b (c ∷ s) = rw (colon c, valid_port-lower s)

bracketed-lower :
    (b : Bool) (o : Option (Bytes × Bytes)) → bracketed b (Option.map both o) ≡ bracketed b o
unfolding bracketed
bracketed-lower b none = refl
bracketed-lower b (some (host, rest)) =
    rw (valid_remainder-lower b rest, valid_ipv6_literal-lower host, lower_idem host)

plain-lower :
    (b : Bool) (s : Bytes) (o : Option (Bytes × Bytes))
    → plain b (lower s) (Option.map both o) ≡ plain b s o
unfolding plain
plain-lower b s none = normalize_name-lower s
plain-lower b s (some (host, port)) =
    rw (any-lower (λ d. d == b':') port colon, valid_port-lower port, normalize_name-lower host)

invalid : (c : ℕ) → invalid_character (to_lower c) ≡ invalid_character c
invalid c = ground arith

-- Host names that differ only in the case of letters have one normal form, and are valid together.
pub normalize-lower : (s : Bytes) (b : Bool) → normalize (lower s) b ≡ normalize s b
unfolding normalize
normalize-lower [] b = refl
normalize-lower (c ∷ s) b =
    let cut_port : cut b':' (to_lower c ∷ lower s) ≡ Option.map both (cut b':' (c ∷ s)) =
      cut-lower b':' (c ∷ s) colon in
    let clean : any invalid_character (to_lower c ∷ lower s) ≡ any invalid_character (c ∷ s) =
      any-lower invalid_character (c ∷ s) invalid in
    rw (
      clean,
      opening c,
      cut-lower b']' s closing,
      bracketed-lower b (cut b']' s),
      cut_port,
      plain-lower b (c ∷ s) (cut b':' (c ∷ s)),
    )
