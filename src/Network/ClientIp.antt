-- ===== src/Network/ClientIp.antt =====
-- src/network/ClientIpResolver.{hpp,cpp}: the address of a client behind trusted proxies. Boost is
-- a parameter.
pub mod Origin
mod Tests
use model_lib.Base.Bytes.{Bytes, codes, cut, is_empty}
use model_lib.Base.{
  ℕ, zero, suc, Bool, true, false, ◌&&◌, ◌||◌, List, [], ◌∷◌, ◌++◌, Option, none, some, ◌==◌,
  if◌then◌else◌, ◌>>=◌, any,
}
use model_lib.Policy.Cidr.{
  Address, Range, from_chars, cidr_contains, maximum_prefix, bounded_prefix,
}

-- `make_address` without an error, `to_string`, and `iequals` of Boost.Beast.
pub record Boost : Type 0 where
  pub make_address : Bytes → Option Address
  pub to_string : Address → Bytes
  pub iequals : Bytes → Bytes → Bool

abbrev pub Header : Type 0
Header = Bytes × Bytes

abbrev pub blank : ℕ → Bool
blank c = c == b' ' || c == b'\t'

unfoldable pub trim_front : Bytes → Bytes
trim_front [] = []
trim_front (c ∷ s) = if blank c then trim_front s else c ∷ s

unfoldable pub trim_back : Bytes → Bytes
trim_back [] = []
trim_back (c ∷ s) = let rest = trim_back s in if is_empty rest && blank c then [] else c ∷ rest

unfoldable pub trim : Bytes → Bytes
trim value = trim_back (trim_front value)

-- The parts between commas: `find(',', start)` and what follows, up to the end.
unfoldable pub put_front : ℕ → List Bytes → List Bytes
put_front c [] = (c ∷ []) ∷ []
put_front c (part ∷ parts) = (c ∷ part) ∷ parts

unfoldable pub split_commas : Bytes → List Bytes
split_commas [] = [] ∷ []
split_commas (c ∷ s) =
    let rest = split_commas s in if c == b',' then [] ∷ rest else put_front c rest

unfoldable pub reversed_onto : {A : Type 0} → List A → List A → List A
reversed_onto [] ys = ys
reversed_onto (x ∷ xs) ys = reversed_onto xs (x ∷ ys)

module _ (boost : Boost) where
  -- `parse_range`, `none` when it throws.
  unfoldable pub range_of : Option Address → (Address → Option ℕ) → Option Range
  range_of none prefix = none
  range_of (some a) prefix = do n ← prefix a; some (record { network = a; prefix = n })

  unfoldable pub parse_parts : Bytes → Option (Bytes × Bytes) → Option Range
  parse_parts text none = range_of (boost.make_address text) (λ a. some (maximum_prefix a))
  parse_parts text (some (address, prefix)) =
      range_of (boost.make_address address)
        (λ a. bounded_prefix (maximum_prefix a) (from_chars prefix))

  unfoldable pub parse_range : Bytes → Option Range
  parse_range text = parse_parts text (cut b'/' text)

  -- The ranges that the constructor makes.
  unfoldable pub resolver : List Bytes → Option (List Range)
  resolver [] = some []
  resolver (cidr ∷ cidrs) = do
    range ← parse_range cidr
    ranges ← resolver cidrs
    some (range ∷ ranges)

  unfoldable pub parse_ip : Bytes → Option Address
  parse_ip value = let text = trim value in if is_empty text then none else boost.make_address text

  -- The loop over the parts of a header, which takes so many of them; `none` for a part that is no
  -- address, after which the chain is empty.
  unfoldable pub parse_chain : ℕ → List Bytes → Option (List Address)
  parse_chain zero parts = some []
  parse_chain (suc room) [] = some []
  parse_chain (suc room) (part ∷ parts) = do
    address ← parse_ip part
    chain ← parse_chain room parts
    some (address ∷ chain)

  unfoldable pub is_trusted : List Range → Address → Bool
  is_trusted ranges address = any (λ range. cidr_contains range address) ranges

  -- The loop over the chain from its end.
  unfoldable pub follow : List Range → Address → List Address → Address
  follow ranges current [] = current
  follow ranges current (next ∷ rest) =
      let further = follow ranges next rest in
      if is_trusted ranges current then further else current

  unfoldable pub end_of_chain : List Range → Address → Option (List Address) → Option Address
  end_of_chain ranges peer none = none
  end_of_chain ranges peer (some []) = none
  end_of_chain ranges peer (some (a ∷ chain)) =
      some (follow ranges peer (reversed_onto (a ∷ chain) []))

  -- What one header says, `none` to go on with the next.
  unfoldable pub read_header : List Range → Address → Header → Option Address
  read_header ranges peer (name, value) =
      if is_empty value
      then none
      else (if boost.iequals name (codes "X-Forwarded-For")
          then end_of_chain ranges peer (parse_chain 64 (split_commas value))
          else parse_ip value)

  unfoldable pub first_named : Address → Option Address → Address → Address
  first_named peer none later = later
  first_named peer (some a) later = a

  unfoldable pub read_headers : List Range → Address → List Header → Address
  read_headers ranges peer [] = peer
  read_headers ranges peer (h ∷ hs) =
      first_named peer (read_header ranges peer h) (read_headers ranges peer hs)

  unfoldable pub resolve : List Range → Address → List Header → Bytes
  resolve ranges peer headers =
      if is_trusted ranges peer
      then boost.to_string (read_headers ranges peer headers)
      else boost.to_string peer
