-- ===== src/Policy/Cidr.antt =====
-- The address ranges of src/policy/RequestPolicy.cpp and src/network/ClientIpResolver.cpp.
use Prim.Native.Nat.{bit_and}
use model_lib.Base.Bytes.{Bytes, equal, is_digit, decimal}
use model_lib.Base.{
  ℕ, zero, suc, ◌-◌, ◌*◌, ◌/◌, ◌%◌, ◌^◌, Bool, true, false, ◌||◌, [], ◌∷◌, Option, none, some, ltb,
  leb, ◌==◌, if◌then◌else◌, take, all,
}

-- `boost::asio::ip::address`: the number of `to_uint`, or the sixteen bytes of `to_bytes`.
pub data Address : Type 0 where
  v4 : ℕ → Address
  v6 : Bytes → Address

pub record Range : Type 0 where
  pub network : Address
  pub prefix : ℕ

-- `std::from_chars` of a whole text into an `unsigned`.
unfoldable pub from_chars : Bytes → Option ℕ
from_chars text =
    if not_number text || leb (2 ^ 32) (decimal 0 text) then none else some (decimal 0 text)
  where
    not_number : Bytes → Bool
    not_number [] = true
    not_number (c ∷ s) = if all is_digit (c ∷ s) then false else true

-- `mask`, on 32 bits and on 8.
unfoldable pub mask32 : ℕ → ℕ
mask32 prefix = if prefix == 0 then 0 else (0xffffffff * 2 ^ (32 - prefix)) % 2 ^ 32

unfoldable pub mask8 : ℕ → ℕ
mask8 remaining = (0xff * 2 ^ (8 - remaining)) % 2 ^ 8

unfoldable pub byte_at : ℕ → Bytes → ℕ
byte_at n [] = 0
byte_at zero (b ∷ bs) = b
byte_at (suc n) (b ∷ bs) = byte_at n bs

unfoldable pub same_bits : ℕ → Bytes → Bytes → Bool
same_bits prefix network address =
    if equal (take (prefix / 8) network) (take (prefix / 8) address)
    then (if prefix % 8 == 0
        then true
        else (bit_and (byte_at (prefix / 8) network) (mask8 (prefix % 8))
            == bit_and (byte_at (prefix / 8) address) (mask8 (prefix % 8))))
    else false

-- `cidr_contains`, and `contains` of the resolver, which is the same text.
unfoldable pub addresses_match : ℕ → Address → Address → Bool
addresses_match prefix (v4 network) (v4 candidate) =
    bit_and network (mask32 prefix) == bit_and candidate (mask32 prefix)
addresses_match prefix (v6 network) (v6 candidate) = same_bits prefix network candidate
addresses_match prefix (v4 network) (v6 candidate) = false
addresses_match prefix (v6 network) (v4 candidate) = false

unfoldable pub cidr_contains : Range → Address → Bool
cidr_contains range candidate = addresses_match range.prefix range.network candidate

unfoldable pub maximum_prefix : Address → ℕ
maximum_prefix (v4 n) = 32
maximum_prefix (v6 bs) = 128

-- The prefix of a range, `none` when it is no number or too large.
unfoldable pub bounded_prefix : ℕ → Option ℕ → Option ℕ
bounded_prefix maximum none = none
bounded_prefix maximum (some n) = if ltb maximum n then none else some n
