-- ===== src/Routing/Host/Port.antt =====
-- src/routing/HostNormalizer.cpp: `valid_port` against the decimal value of the digits.
use model_lib.Base.Bytes.{decimal, Bytes, is_digit}
use model_lib.Base.{
  Bool-cases, inl, inr, refl, ℕ, ◌+◌, ◌-◌, ◌*◌, ◌≤◌, ◌≡◌, ◌≢◌, ◌↔◌, true, [], ◌∷◌, arith, all,
}
use model_lib.Routing.Host.{shift_in, port_digits, valid_port}

le-decimal : (value : ℕ) (s : Bytes) → value ≤ decimal value s
unfolding decimal
le-decimal value [] = omega arith
le-decimal value (c ∷ s) = omega (arith, le-decimal (value * 10 + (c - b'0')) s)

port_digits_sound :
    (value : ℕ) (s : Bytes)
    → value ≤ 65535
    → port_digits value s ≡ true
    → (all is_digit s ≡ true) × (decimal value s ≤ 65535)
unfolding port_digits decimal
port_digits_sound value [] small h = ground arith
port_digits_sound value (c ∷ s) small h = elim (Bool-cases (is_digit c)) [
  | inl digit ↦
      let same : shift_in value c ≡ value * 10 + (c - b'0') = ground arith in
      ground (arith, same, port_digits_sound (value * 10 + (c - b'0')) s)
  | inr other ↦ ground arith
]

port_digits_complete :
    (value : ℕ) (s : Bytes)
    → value ≤ 65535
    → all is_digit s ≡ true
    → decimal value s ≤ 65535
    → port_digits value s ≡ true
unfolding port_digits decimal
port_digits_complete value [] small digits h = ground arith
port_digits_complete value (c ∷ s) small digits h = ground (
  arith,
  le-decimal (value * 10 + (c - b'0')) s,
  port_digits_complete (value * 10 + (c - b'0')) s,
)

-- A port is accepted exactly when it is a non-empty sequence of digits whose value is at most 65535;
-- the reader's `std::uint32_t` never wraps around.
pub valid_port_iff :
    (p : Bytes)
    → (valid_port p ≡ true) ↔ ((p ≢ []) × (all is_digit p ≡ true) × (decimal 0 p ≤ 65535))
unfolding valid_port
valid_port_iff [] = (λ h. cc, λ h. absurd (h.0 refl))
valid_port_iff (c ∷ s) = (
  λ h. let found = port_digits_sound 0 (c ∷ s) (omega arith) h in (λ e. cc, found.0, found.1),
  λ h. port_digits_complete 0 (c ∷ s) (omega arith) h.1 h.2,
)
