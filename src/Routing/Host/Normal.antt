-- ===== src/Routing/Host/Normal.antt =====
-- src/routing/HostNormalizer.cpp: a normalized DNS name is in normal form; and the dot that may
-- follow an IPv4 address.
use model_lib.Base.Bytes.{Bytes, components, cut, ends_in, remove_last, starts_in, walk}
use model_lib.Base.{
  ℕ, suc, ◌≡◌, refl, sym, ap, ◌∙◌, inl, inr, Bool, true, false, [], ◌∷◌, ◌++◌, none, some, arith,
  any, Bool-cases, Option-cases, subst,
}
use model_lib.Routing.Host.{
  ipv4_component, count_ipv4, is_count, valid_ipv4_address, valid_dns_name, lower, undotted,
  normalize_name, plain, invalid_character, normalize, normalize_domain,
}
use model_lib.Routing.Host.CaseFree.{normalize-lower}

any-remove_last : (p : ℕ → Bool) (s : Bytes) → any p s ≡ false → any p (remove_last s) ≡ false
unfolding remove_last
any-remove_last p [] h = refl
any-remove_last p (c ∷ []) h = refl
any-remove_last p (c ∷ d ∷ s) h = ground (arith, any-remove_last p (d ∷ s))

starts_in-remove_last :
    (c : ℕ) (s : Bytes) → starts_in c s ≡ false → starts_in c (remove_last s) ≡ false
unfolding remove_last
starts_in-remove_last c [] h = refl
starts_in-remove_last c (d ∷ []) h = refl
starts_in-remove_last c (d ∷ e ∷ s) h = h

cut-remove_last : (c : ℕ) (s : Bytes) → cut c s ≡ none → cut c (remove_last s) ≡ none
unfolding remove_last cut
cut-remove_last c [] h = refl
cut-remove_last c (d ∷ []) h = refl
cut-remove_last c (d ∷ e ∷ s) h = ground (arith, cut-remove_last c (e ∷ s))

ends_undotted : (s : Bytes) → valid_dns_name s ≡ true → undotted s ≡ s
unfolding valid_dns_name
ends_undotted s h = ground arith

empty-valid_dns_name : valid_dns_name [] ≡ false
unfolding valid_dns_name
empty-valid_dns_name = refl

normalize_name_cases :
    (s n : Bytes)
    → normalize_name s ≡ some n
    → (valid_dns_name (undotted s) ≡ true) × (n ≡ lower (undotted s))
unfolding normalize_name
normalize_name_cases s n h = ground arith

normalize-name :
    (s : Bytes)
    → valid_dns_name s ≡ true
    → any invalid_character s ≡ false
    → starts_in b'[' s ≡ false
    → cut b':' s ≡ none
    → normalize s false ≡ some (lower s)
unfolding normalize plain normalize_name
normalize-name [] valid clean name whole = absurd (cc empty-valid_dns_name)
normalize-name (c ∷ s) valid clean name whole =
    rw (clean, name, whole, ends_undotted (c ∷ s) valid, valid)

undotted_parts :
    (s : Bytes)
    → any invalid_character s ≡ false
    → starts_in b'[' s ≡ false
    → cut b':' s ≡ none
    → (any invalid_character (undotted s) ≡ false)
      × (starts_in b'[' (undotted s) ≡ false)
      × (cut b':' (undotted s) ≡ none)
undotted_parts s clean name whole = ground (
  arith,
  any-remove_last invalid_character s clean,
  starts_in-remove_last b'[' s name,
  cut-remove_last b':' s whole,
)

-- The normal form of a name that is no bracketed address is its own normal form.
pub normalize_domain_idem :
    (s n : Bytes)
    → starts_in b'[' s ≡ false
    → normalize_domain s ≡ some n
    → normalize_domain n ≡ some n
unfolding normalize_domain
normalize_domain_idem [] n name e = cc
normalize_domain_idem (c ∷ s) n name e = elim (Bool-cases (any invalid_character (c ∷ s))) [
  | inl dirty ↦ absurd (let e' = rw dirty at e in cc)
  | inr clean ↦
      let e' = rw (clean, name) at e in
      elim (Option-cases (cut b':' (c ∷ s))) [
        | inr (ab, colon) ↦ absurd (let e'' = rw (colon, plain) at e' in cc)
        | inl whole ↦
            let e'' : normalize_name (c ∷ s) ≡ some n = rw (whole, plain) at e' in
            let parts = undotted_parts (c ∷ s) clean name whole in
            let u : Bytes = undotted (c ∷ s) in
            let found = normalize_name_cases (c ∷ s) n e'' in
            subst (λ m. normalize m false ≡ some m) (sym found.1)
              (normalize-lower u false ∙ normalize-name u found.0 parts.0 parts.1 parts.2)
      ]
]

count_ipv4-walk_dot :
    (count : ℕ) (current s : Bytes)
    → ends_in b'.' s ≡ false
    → count_ipv4 count (walk b'.' current (s ++ b'.' ∷ [])) ≡ count_ipv4 count (walk b'.' current s)
unfolding walk count_ipv4 ends_in
count_ipv4-walk_dot count current [] h = ground arith
count_ipv4-walk_dot count current (c ∷ []) h = ground arith
count_ipv4-walk_dot count current (c ∷ d ∷ s) h = ground (
  arith,
  count_ipv4-walk_dot (suc count) [] (d ∷ s) h,
  count_ipv4-walk_dot count (current ++ c ∷ []) (d ∷ s) h,
)

-- An IPv4 address is accepted with a dot behind it exactly when it is accepted without.
pub valid_ipv4_address_dot :
    (s : Bytes)
    → ends_in b'.' s ≡ false
    → valid_ipv4_address (s ++ b'.' ∷ []) ≡ valid_ipv4_address s
unfolding valid_ipv4_address components
valid_ipv4_address_dot [] h = unfold walk count_ipv4 ipv4_component in refl
valid_ipv4_address_dot (c ∷ s) h =
    ap (λ count. is_count count 4) (count_ipv4-walk_dot 0 [] (c ∷ s) h)
