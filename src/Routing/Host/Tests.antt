-- ===== src/Routing/Host/Tests.antt =====
-- Runs of the normalizer, and its theorems at concrete names.
use model_lib.Base.Bytes.{decimal, codes, is_digit, ends_in}
use model_lib.Base.{◌≡◌, ◌≢◌, ◌≤◌, ◌↔◌, refl, true, false, [], ◌++◌, none, some, all}
use model_lib.Routing.Host.{
  lower, valid_port, valid_ipv4_address, normalize, normalize_authority, normalize_domain, number,
  count_ipv4, ipv4_component, add_groups, count_ipv6_groups, ipv6_group, cut_pair,
  compressed_groups, port_digits,
}
use model_lib.Routing.Host.Port.{valid_port_iff}
use model_lib.Routing.Host.CaseFree.{normalize-lower}
use model_lib.Routing.Host.Forms.{normalize_authority_port}
use model_lib.Routing.Host.Normal.{normalize_domain_idem, valid_ipv4_address_dot}

mixed_case : normalize_authority (codes "WWW.Example.com.:8443") ≡ some (codes "www.example.com")
unfolding normalize_authority port_digits
mixed_case = refl

bracketed_address : normalize_authority (codes "[2001:DB8::1]:443") ≡ some (codes "2001:db8::1")
unfolding normalize_authority port_digits cut_pair compressed_groups count_ipv6_groups add_groups
    ipv6_group
bracketed_address = refl

wide_port : normalize_authority (codes "example.com:65536") ≡ none
unfolding normalize_authority port_digits
wide_port = refl

-- The dot behind the address makes no difference, though nothing may follow it.
dotted_tail : normalize_authority (codes "[::ffff:192.0.2.1.]") ≡ some (codes "::ffff:192.0.2.1.")
unfolding normalize_authority cut_pair compressed_groups count_ipv6_groups add_groups ipv6_group
    valid_ipv4_address count_ipv4 ipv4_component number
dotted_tail = refl

valid_port_iff_example :
    (valid_port (codes "443") ≡ true)
    ↔ ((codes "443" ≢ []) × (all is_digit (codes "443") ≡ true) × (decimal 0 (codes "443") ≤ 65535))
valid_port_iff_example = valid_port_iff (codes "443")

normalize-lower_example :
    normalize (lower (codes "Example.COM")) false ≡ normalize (codes "Example.COM") false
normalize-lower_example = normalize-lower (codes "Example.COM") false

normalize_authority_port_example :
    normalize_authority (codes "Example.com" ++ codes ":80") ≡ some (codes "example.com")
unfolding normalize_domain valid_port port_digits
normalize_authority_port_example =
    normalize_authority_port (codes "Example.com") (codes "80") (codes "example.com") refl refl

normalize_domain_idem_example : normalize_domain (codes "example.com") ≡ some (codes "example.com")
unfolding normalize_domain
normalize_domain_idem_example =
    normalize_domain_idem (codes "Example.com.") (codes "example.com") refl refl

valid_ipv4_address_dot_example :
    valid_ipv4_address (codes "192.0.2.1" ++ codes ".") ≡ valid_ipv4_address (codes "192.0.2.1")
unfolding ends_in
valid_ipv4_address_dot_example = valid_ipv4_address_dot (codes "192.0.2.1") refl
