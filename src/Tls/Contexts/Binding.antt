-- ===== src/Tls/Contexts/Binding.antt =====
-- src/tls/TlsContextManager.cpp: the tables of the manager hold matching certificates only.
use model_lib.Base.Bytes.{Bytes, bytes_eq, equal, equal_iff}
use model_lib.Base.Map.{Map, lookup, insert, Entries, insert-Entries}
use model_lib.Base.{
  ◌≡◌, subst, inl, inr, Bool, true, false, not, ◌&&◌, ◌||◌, List, [], ◌∷◌, ◌++◌, none, some,
  is_some, arith, ltb, ◌==◌, if◌then◌else◌, ◌>>=◌, >>=_some, length, any, All, All-mono, Bool-cases,
}
use model_lib.Tls.Contexts.{
  TlsCertificateConfig, SslContextHolder, TlsContextManager, OpenSsl, one_label, holder,
  matches_domain, bind_exact, bind_wildcards, choose_default, keep_holder, add_certificates,
  place_context, sort_contexts, sorted, distinct_names, default_count, context_manager,
}

-- A list has each of its texts, and a suffix that has a host in front of it has it in the list.
any_weaken :
    {A : Type 0} (p : A → Bool) (x : A) (xs : List A) → any p xs ≡ true → any p (x ∷ xs) ≡ true
any_weaken p x xs h = ground (arith, h)

has_each : (all : List Bytes) → All (λ d. any (λ e. equal e d) all ≡ true) all
has_each [] = tt
has_each (d ∷ ds) = (
  ground (arith, equal_iff d d),
  All-mono (λ x. any (λ e. equal e x) ds ≡ true) (λ x. any (λ e. equal e x) (d ∷ ds) ≡ true)
      (λ x h. any_weaken (λ e. equal e x) d ds h) ds (has_each ds),
)

wild_each :
    (all : List Bytes)
    → All
        (λ s. (host : Bytes) → one_label s host ≡ true → any (λ t. one_label t host) all ≡ true)
        all
wild_each [] = tt
wild_each (s ∷ ss) = (
  λ host h. ground (arith, h),
  All-mono _ _ (λ x f host h. any_weaken (λ t. one_label t host) s ss (f host h)) ss (wild_each ss),
)

module _ {X : Type 0} where
  abbrev pub Exact : Bytes → SslContextHolder X → Type 0
  Exact domain h = matches_domain h domain ≡ true

  abbrev pub Wild : Bytes → SslContextHolder X → Type 0
  Wild suffix h = (host : Bytes) → one_label suffix host ≡ true → matches_domain h host ≡ true

  -- Every entry of the two tables is of a certificate that matches.
  pub record Bound (m : TlsContextManager X) : Type 0 where
    pub exact : Entries Exact m.exact_contexts
    pub wild : Entries Wild m.wildcard_contexts

  holder-Exact : (h : SslContextHolder X) → All (λ d. Exact d h) h.exact_domains
  unfolding matches_domain
  holder-Exact h =
      All-mono _ _ (λ d e. ground (arith, e)) h.exact_domains (has_each h.exact_domains)

  holder-Wild : (h : SslContextHolder X) → All (λ s. Wild s h) h.wildcard_domains
  unfolding matches_domain
  holder-Wild h =
      All-mono _ _ (λ s f host e. let found = f host e in ground (arith, found)) h.wildcard_domains
        (wild_each h.wildcard_domains)

  bind_exact-Bound :
      (h : SslContextHolder X) (ds : List Bytes) (m r : TlsContextManager X)
      → All (λ d. Exact d h) ds
      → Bound m
      → bind_exact h ds m ≡ some r
      → Bound r
  unfolding bind_exact
  bind_exact-Bound h [] m r fits b made = let same : m ≡ r = cc made in subst Bound same b
  bind_exact-Bound h (d ∷ ds) m r fits b made =
      elim (Bool-cases (is_some (lookup d m.exact_contexts))) [
        | inl bad ↦ absurd (let e = rw bad at made in cc e)
        | inr free ↦
            bind_exact-Bound h ds (record m { exact_contexts = insert d h m.exact_contexts }) r
              fits.1
              (record {
                exact = insert-Entries Exact d h m.exact_contexts fits.0 b.exact;
                wild = b.wild;
              })
              (rw free at made)
      ]

  append-Entries :
      (P : Bytes → SslContextHolder X → Type 0) (m n : Map Bytes (SslContextHolder X))
      → Entries P m
      → Entries P n
      → Entries P (m ++ n)
  append-Entries P [] n hm hn = hn
  append-Entries P ((k, v) ∷ m) n hm hn = (hm.0, append-Entries P m n hm.1 hn)

  bind_wildcards-Bound :
      (h : SslContextHolder X) (ss : List Bytes) (m r : TlsContextManager X)
      → All (λ s. Wild s h) ss
      → Bound m
      → bind_wildcards h ss m ≡ some r
      → Bound r
  unfolding bind_wildcards
  bind_wildcards-Bound h [] m r fits b made = let same : m ≡ r = cc made in subst Bound same b
  bind_wildcards-Bound h (s ∷ ss) m r fits b made =
      elim (Bool-cases (is_some (lookup s m.wildcard_contexts))) [
        | inl bad ↦ absurd (let e = rw bad at made in cc e)
        | inr free ↦
            bind_wildcards-Bound h ss
              (record m { wildcard_contexts = m.wildcard_contexts ++ (s, h) ∷ [] }) r fits.1
              (record {
                exact = b.exact;
                wild = append-Entries Wild m.wildcard_contexts ((s, h) ∷ []) b.wild (fits.0, tt);
              })
              (rw free at made)
      ]

  choose_default-Bound :
      (is_default none_marked : Bool) (h : SslContextHolder X) (m : TlsContextManager X)
      → Bound m
      → Bound (choose_default is_default none_marked h m)
  unfolding choose_default
  choose_default-Bound is_default none_marked h m b =
      either-Bound (is_default || not (is_some m.default_context) && none_marked) _ m
        (record { exact = b.exact; wild = b.wild }) b
    where
      either-Bound :
          (t : Bool) (x y : TlsContextManager X) → Bound x → Bound y → Bound (if t then x else y)
      either-Bound true x y hx hy = hx
      either-Bound false x y hx hy = hy

  add_certificates-Bound :
      (openssl : OpenSsl X) (none_marked : Bool) (cs : List TlsCertificateConfig)
      (m r : TlsContextManager X)
      → Bound m
      → add_certificates openssl none_marked cs m ≡ some r
      → Bound r
  unfolding add_certificates keep_holder
  add_certificates-Bound openssl none_marked [] m r b made =
      let same : m ≡ r = cc made in subst Bound same b
  add_certificates-Bound openssl none_marked (c ∷ cs) m r b made =
      let (h, _, h1) = >>=_some (holder openssl c) _ r made in
      let first = choose_default c.is_default none_marked h m in
      let (e, bound_exact, h2) = >>=_some (bind_exact h h.exact_domains first) _ r h1 in
      let (w, bound_wild, h3) = >>=_some (bind_wildcards h h.wildcard_domains e) _ r h2 in
      let after_exact =
        bind_exact-Bound h h.exact_domains first e (holder-Exact h)
          (choose_default-Bound c.is_default none_marked h m b) bound_exact in
      let after =
        bind_wildcards-Bound h h.wildcard_domains e w (holder-Wild h) after_exact bound_wild in
      add_certificates-Bound openssl none_marked cs (keep_holder h w) r
        (record { exact = after.exact; wild = after.wild }) h3

  place-Entries :
      (k : Bytes) (v : SslContextHolder X) (m : Map Bytes (SslContextHolder X))
      → Wild k v
      → Entries Wild m
      → Entries Wild (place_context k v m)
  unfolding place_context
  place-Entries k v [] p h = (p, tt)
  place-Entries k v ((j, w) ∷ m) p h = elim (Bool-cases (ltb (length j) (length k))) [
    | inl e ↦ rw e (p, h)
    | inr e ↦ rw e (h.0, place-Entries k v m p h.1)
  ]

  sort-Entries :
      (m : Map Bytes (SslContextHolder X)) → Entries Wild m → Entries Wild (sort_contexts m)
  unfolding sort_contexts
  sort-Entries [] h = tt
  sort-Entries ((k, v) ∷ m) h = place-Entries k v (sort_contexts m) h.0 (sort-Entries m h.1)

  pub context_manager-Bound :
      (openssl : OpenSsl X) (certificates : List TlsCertificateConfig) (reject : Bool)
      (m : TlsContextManager X)
      → context_manager openssl certificates reject ≡ some m
      → Bound m
  unfolding context_manager sorted
  context_manager-Bound openssl certificates reject m made =
      let empty : TlsContextManager X = record {
        contexts = [];
        default_context = none;
        exact_contexts = [];
        wildcard_contexts = [];
        reject_unknown_sni = reject;
      } in
      elim (Bool-cases (
        length certificates == 0
        || not (distinct_names [] certificates)
        || ltb 1 (default_count certificates))) [
          | inl bad ↦ absurd (let e = rw bad at made in cc e)
          | inr fine ↦
              let rest : (add_certificates openssl (default_count certificates == 0) certificates
                      empty
                    >>= (λ n. some (sorted n)))
                  ≡ some m =
                rw fine at made in
              let (n, added, g) =
                >>=_some
                  (add_certificates openssl (default_count certificates == 0) certificates empty) _
                  m rest in
              let b =
                add_certificates-Bound openssl (default_count certificates == 0) certificates empty
                  n (record { exact = tt; wild = tt }) added in
              let all : some (sorted n) ≡ some m = g in
              let same : sorted n ≡ m = cc all in
              subst Bound same
                (record { exact = b.exact; wild = sort-Entries n.wildcard_contexts b.wild })
        ]
