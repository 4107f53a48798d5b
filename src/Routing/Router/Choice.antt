-- ===== src/Routing/Router/Choice.antt =====
-- src/routing/VirtualHostRouter.cpp: which virtual host serves a name.
use model_lib.Base.Bytes.{Bytes, equal, equal_iff, bytes_eq}
use model_lib.Base.Map.{Map, lookup, Entries, Entries-mono}
use model_lib.Base.{
  ℕ, zero, suc, ◌-◌, ◌+◌, ◌≤◌, ◌<◌, ◌≡◌, refl, sym, ap, subst, inl, inr, ◌⊎◌, ◌↔◌, Bool, true,
  false, List, [], ◌∷◌, ◌++◌, Option, none, some, arith, length, length-append, drop, Bool-cases,
  Option-cases, ltb, ◌∙◌, ◌==◌,
}
use model_lib.Routing.Router.{
  Router, VirtualHost, VirtualHostConfig, router, under, byte_is, find, find_exact, find_wildcard,
}
use model_lib.Routing.Router.Order.{Descending, bind_configs-Descending}

drop-append : (xs ys : Bytes) → drop (length xs) (xs ++ ys) ≡ ys
drop-append [] ys = refl
drop-append (x ∷ xs) ys = drop-append xs ys

append_snoc : (xs : Bytes) (c : ℕ) (ys : Bytes) → (xs ++ c ∷ []) ++ ys ≡ xs ++ c ∷ ys
append_snoc [] c ys = refl
append_snoc (x ∷ xs) c ys = ap (λ t. x ∷ t) (append_snoc xs c ys)

split_at : (k : ℕ) (s : Bytes) → (front : Bytes) × (s ≡ front ++ drop k s)
split_at zero s = ([], refl)
split_at (suc k) [] = ([], refl)
split_at (suc k) (c ∷ s) = let (front, e) = split_at k s in (c ∷ front, ap (λ t. c ∷ t) e)

behind_dot : (k : ℕ) (s : Bytes) → byte_is b'.' (drop k s) ≡ true → drop k s ≡ b'.' ∷ drop (suc k) s
unfolding byte_is
behind_dot zero [] h = absurd (cc h)
behind_dot zero (c ∷ s) h = let dot : c ≡ b'.' = ground (arith, h) in ap (λ d. d ∷ s) dot
behind_dot (suc k) [] h = absurd (cc h)
behind_dot (suc k) (c ∷ s) h = behind_dot k s h

under_parts :
    (suffix host : Bytes)
    → under suffix host ≡ true
    → (length suffix < length host)
      × (drop (length host - length suffix) host ≡ suffix)
      × (byte_is b'.' (drop (length host - length suffix - 1) host) ≡ true)
unfolding under
under_parts suffix host h = (
  ground (arith, h),
  (equal_iff (drop (length host - length suffix) host) suffix).0 (ground (arith, h)),
  ground (arith, h),
)

-- A wildcard `*.suffix` covers a host exactly when the host is a name, a dot and the suffix.
pub under_iff :
    (suffix host : Bytes)
    → (under suffix host ≡ true) ↔ ((front : Bytes) × (host ≡ front ++ b'.' ∷ suffix))
unfolding under byte_is
under_iff suffix host = (forth, back)
  where
    forth : under suffix host ≡ true → (front : Bytes) × (host ≡ front ++ b'.' ∷ suffix)
    forth h =
        let (shorter, tail, dot) = under_parts suffix host h in
        let k = length host - length suffix - 1 in
        let (front, e) = split_at k host in
        let next : suc k ≡ length host - length suffix = omega (arith, shorter) in
        let rest : drop (suc k) host ≡ suffix = subst (λ n. drop n host ≡ suffix) (sym next) tail in
        (front, e ∙ ap (λ t. front ++ t) (behind_dot k host dot ∙ ap (λ t. b'.' ∷ t) rest))

    back : (front : Bytes) × (host ≡ front ++ b'.' ∷ suffix) → under suffix host ≡ true
    back (front, e) =
        let sizes : length host ≡ length front + suc (length suffix) =
          ap (λ t. length t) e ∙ length-append front (b'.' ∷ suffix) in
        let at : length host - length suffix - 1 ≡ length front = omega (arith, sizes) in
        let past : length host - length suffix ≡ length (front ++ b'.' ∷ []) =
          omega (arith, sizes, length-append front (b'.' ∷ [])) in
        let dotted : drop (length host - length suffix - 1) host ≡ b'.' ∷ suffix =
          ap (λ n. drop n host) at
          ∙ ap (λ t. drop (length front) t) e
          ∙ drop-append front (b'.' ∷ suffix) in
        let tail : drop (length host - length suffix) host ≡ suffix =
          ap (λ n. drop n host) past
          ∙ ap (λ t. drop (length (front ++ b'.' ∷ [])) t) (e ∙ sym (append_snoc front b'.' suffix))
          ∙ drop-append (front ++ b'.' ∷ []) suffix in
        let same = (equal_iff suffix suffix).1 refl in
        let longer : ltb (length suffix) (length host) ≡ true = ground (arith, sizes) in
        rw (dotted, tail, longer, same) refl

-- Two suffixes of the same length that cover one host are the same.
pub under_same :
    (a b host : Bytes) → under a host ≡ true → under b host ≡ true → length a ≡ length b → a ≡ b
under_same a b host p q same =
    let (_, x, _) = under_parts a host p in
    let (_, y, _) = under_parts b host q in sym x ∙ ap (λ n. drop (length host - n) host) same ∙ y

compare_suffix :
    (suffix j host : Bytes)
    → under suffix host ≡ true
    → length j ≤ length suffix
    → (under j host ≡ false) ⊎ (j ≡ suffix) ⊎ (length j < length suffix)
compare_suffix suffix j host covers le = elim (Bool-cases (under j host)) [
  | inr apart ↦ inl apart
  | inl also ↦ elim (Bool-cases (length j == length suffix)) [
    | inl e ↦ inr (inl (under_same j suffix host also covers (ground (arith, e))))
    | inr e ↦ inr (inr (ground (arith, e, le)))
  ]
]

module _ {P : Type 0} where
  -- The wildcard that is chosen for a host among these: its host serves, and any other one that
  -- covers the host is shorter.
  abbrev pub Chosen : Bytes → Map Bytes (VirtualHost P) → VirtualHost P → Type 0
  Chosen host m v =
      (suffix : Bytes) × (lookup suffix m ≡ some v)
      × (under suffix host ≡ true)
      × Entries (λ j w. (under j host ≡ false) ⊎ (j ≡ suffix) ⊎ (length j < length suffix)) m

  find_wildcard-cases :
      (host : Bytes) (m : Map Bytes (VirtualHost P))
      → Descending m
      → ((find_wildcard host m ≡ none) × Entries (λ j w. under j host ≡ false) m)
        ⊎ ((v : VirtualHost P) × (find_wildcard host m ≡ some v) × Chosen host m v)
  unfolding find_wildcard lookup
  find_wildcard-cases host [] d = inl (refl, tt)
  find_wildcard-cases host ((k, w) ∷ m) d = elim (Bool-cases (under k host)) [
    | inl e ↦
        let self : equal k k ≡ true = (equal_iff k k).1 refl in
        inr (
          w,
          rw e refl,
          (
            k,
            rw self refl,
            e,
            (inr (inl refl), Entries-mono _ _ (λ j u le. compare_suffix k j host e le) m d.0),
          ),
        )
    | inr e ↦ elim (find_wildcard-cases host m d.1) [
      | inl (missing, all) ↦ inl (rw e missing, (e, all))
      | inr (v, found, (suffix, at, covers, best)) ↦
          let other : equal k suffix ≡ false = ground (arith, equal_iff k suffix, e, covers) in
          inr (v, rw e found, (suffix, rw other at, covers, (inl e, best)))
    ]
  ]

-- The router that the constructor makes serves a name by the virtual host of that exact name if
-- there is one; else by the host of the longest wildcard that covers the name, which no other
-- wildcard that covers it matches in length; and it finds none exactly when no wildcard covers it.
pub find_longest :
    {S P : Type 0} (valid_address : Bytes → Bool) (compile : S → List Bytes → Option P)
    (configs : List (VirtualHostConfig S)) (r : Router P) (host : Bytes)
    → router valid_address compile configs ≡ inr r
    → ((v : VirtualHost P) × (lookup host r.exact_hosts ≡ some v) × (find host r ≡ some v))
      ⊎ ((lookup host r.exact_hosts ≡ none)
          × (((find host r ≡ none) × Entries (λ j w. under j host ≡ false) r.wildcard_hosts)
              ⊎ ((v : VirtualHost P) × (find host r ≡ some v) × Chosen host r.wildcard_hosts v)))
unfolding router find find_exact
find_longest valid_address compile configs r host made =
    elim (Option-cases (lookup host r.exact_hosts)) [
      | inr (v, e) ↦ inl (v, e, rw e refl)
      | inl e ↦ inr (
        e,
        rw e (
            find_wildcard-cases host r.wildcard_hosts
              (bind_configs-Descending valid_address compile configs _ r made)),
      )
    ]
