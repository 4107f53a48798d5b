-- ===== src/Routing/Host/Forms.antt =====
-- src/routing/HostNormalizer.cpp: an authority with a port, names in normal form, and the dot that
-- may follow an IPv4 address.
use model_lib.Base.Bytes.{Bytes, contains, cut}
use model_lib.Base.{
  ℕ, ◌+◌, ◌-◌, ◌*◌, ◌%◌, ◌^◌, ◌≡◌, refl, inl, inr, Bool, true, false, ◌||◌, List, [], ◌∷◌, ◌++◌,
  Option, none, some, arith, ◌==◌, any, Bool-cases, Option-cases,
}
use model_lib.Routing.Host.{
  port_digits, valid_port, valid_remainder, bracketed, plain, invalid_character,
  normalize_authority, normalize_domain,
}

any-append {ℓ} :
    {A : Type ℓ} (p : A → Bool) (xs ys : List A) → any p (xs ++ ys) ≡ (any p xs || any p ys)
any-append p [] ys = refl
any-append p (x ∷ xs) ys = ground (arith, any-append p xs ys)

cut-append_none : (c : ℕ) (h p : Bytes) → cut c h ≡ none → cut c (h ++ c ∷ p) ≡ some (h, p)
unfolding cut
cut-append_none c [] p e = ground arith
cut-append_none c (d ∷ h) p e = ground (arith, cut-append_none c h p)

cut-append_some :
    (c : ℕ) (h a b p : Bytes) → cut c h ≡ some (a, b) → cut c (h ++ p) ≡ some (a, b ++ p)
unfolding cut
cut-append_some c [] a b p e = cc
cut-append_some c (d ∷ h) a b p e = elim (Option-cases (cut c h)) [
  | inl missing ↦ ground (arith, missing)
  | inr (xy, found) ↦ ground (arith, found, cut-append_some c h xy.0 xy.1 p found)
]

port_digits_clean :
    (v : ℕ) (p : Bytes)
    → port_digits v p ≡ true
    → (any invalid_character p ≡ false) × (contains b':' p ≡ false)
unfolding port_digits
port_digits_clean v [] h = (refl, refl)
port_digits_clean v (c ∷ p) h = ground (arith, port_digits_clean ((v * 10 + (c - b'0')) % 2 ^ 32) p)

valid_port_clean :
    (p : Bytes)
    → valid_port p ≡ true
    → (any invalid_character p ≡ false) × (contains b':' p ≡ false)
unfolding valid_port
valid_port_clean p h = ground (arith, port_digits_clean 0 p)

plain_port :
    (h p n : Bytes) (o : Option (Bytes × Bytes))
    → valid_port p ≡ true
    → cut b':' h ≡ o
    → plain false h o ≡ some n
    → plain true (h ++ b':' ∷ p) (cut b':' (h ++ b':' ∷ p)) ≡ some n
unfolding plain
plain_port h p n none ok found e =
    rw (cut-append_none b':' h p found) (ground (arith, valid_port_clean p ok))
plain_port h p n (some (a, b)) ok found e = absurd (cc)

bracketed_port :
    (s p n : Bytes) (o : Option (Bytes × Bytes))
    → valid_port p ≡ true
    → cut b']' s ≡ o
    → bracketed false o ≡ some n
    → bracketed true (cut b']' (s ++ b':' ∷ p)) ≡ some n
unfolding bracketed valid_remainder
bracketed_port s p n none ok found e = absurd (cc)
bracketed_port s p n (some (a, [])) ok found e =
    rw (cut-append_some b']' s a [] (b':' ∷ p) found) (ground arith)
bracketed_port s p n (some (a, c ∷ b)) ok found e = absurd (cc)

-- A valid name or bracketed address with a valid port behind it has the normal form that it has by
-- itself.
pub normalize_authority_port :
    (h p n : Bytes)
    → normalize_domain h ≡ some n
    → valid_port p ≡ true
    → normalize_authority (h ++ b':' ∷ p) ≡ some n
unfolding normalize_authority normalize_domain
normalize_authority_port [] p n e ok = cc
normalize_authority_port (c ∷ s) p n e ok =
    let clean : any invalid_character (c ∷ s) ≡ false = ground arith in
    let all_clean : any invalid_character (c ∷ s ++ b':' ∷ p) ≡ false =
      ground (arith, any-append invalid_character (c ∷ s) (b':' ∷ p), valid_port_clean p ok) in
    elim (Bool-cases (c == b'[')) [
      | inl bracket ↦
          let e' = rw (clean, bracket) at e in
          rw (all_clean, bracket) (bracketed_port s p n (cut b']' s) ok refl e')
      | inr name ↦
          let e' = rw (clean, name) at e in
          rw (all_clean, name) (plain_port (c ∷ s) p n (cut b':' (c ∷ s)) ok refl e')
    ]
