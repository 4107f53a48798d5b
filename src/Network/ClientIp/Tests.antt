-- ===== src/Network/ClientIp/Tests.antt =====
-- Runs of the resolver, and its theorem at a concrete request. Two addresses are known.
use model_lib.Base.Bytes.{codes, equal, cut, decimal}
use model_lib.Base.{◌≡◌, ◌⊎◌, refl, true, false, List, [], ◌∷◌, some, none, if◌then◌else◌}
use model_lib.Policy.Cidr.{
  Address, Range, v4, v6, from_chars, mask32, addresses_match, cidr_contains, maximum_prefix,
  bounded_prefix,
}
use model_lib.Network.ClientIp.{
  Boost, Header, trim_front, trim_back, trim, split_commas, put_front, reversed_onto, range_of,
  parse_parts, parse_range, resolver, parse_ip, parse_chain, is_trusted, follow, end_of_chain,
  read_header, first_named, read_headers, resolve,
}
use model_lib.Network.ClientIp.Origin.{Named, resolve-Named}

abbrev local_addresses : Boost
local_addresses = record {
  make_address = λ s.
      if equal s (codes "10.0.0.1")
      then some (v4 0x0A000001)
      else (if equal s (codes "192.0.2.7") then some (v4 0xC0000207) else none);
  to_string = λ a. elim a [ v4 n ↦ n ∷ [] | v6 bs ↦ bs ];
  iequals = equal;
}

abbrev proxies : List Range
proxies = record { network = v4 0x0A000001; prefix = 8 } ∷ []

proxies_made : resolver local_addresses (codes "10.0.0.1/8" ∷ []) ≡ some proxies
unfolding resolver parse_range parse_parts range_of cut decimal from_chars bounded_prefix
    maximum_prefix equal
proxies_made = refl

abbrev forwarded : List Header
forwarded =
    (codes "X-Real-IP", []) ∷ (codes "X-Forwarded-For", codes "192.0.2.7, 10.0.0.1 ,10.0.0.1") ∷ []

behind_proxies : resolve local_addresses proxies (v4 0x0A000001) forwarded ≡ 0xC0000207 ∷ []
unfolding resolve is_trusted cidr_contains addresses_match mask32 read_headers read_header
    first_named end_of_chain parse_chain split_commas put_front parse_ip trim trim_front trim_back
    equal reversed_onto follow
behind_proxies = refl

not_a_proxy : resolve local_addresses proxies (v4 0x0B000001) forwarded ≡ 0x0B000001 ∷ []
unfolding resolve is_trusted cidr_contains addresses_match mask32
not_a_proxy = refl

resolve-Named_example :
    (a : Address) × (resolve local_addresses proxies (v4 0x0A000001) forwarded
      ≡ local_addresses.to_string a)
    × (((is_trusted local_addresses proxies (v4 0x0A000001) ≡ false) × (a ≡ v4 0x0A000001))
        ⊎ ((is_trusted local_addresses proxies (v4 0x0A000001) ≡ true)
            × Named local_addresses proxies (v4 0x0A000001) forwarded a))
resolve-Named_example = resolve-Named local_addresses proxies (v4 0x0A000001) forwarded
