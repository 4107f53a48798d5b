-- ===== src/Tls/Contexts/Matching.antt =====
-- src/tls/TlsContextManager.cpp: a certificate is chosen only for a name that it is bound to.
use model_lib.Base.Bytes.{Bytes, bytes_eq}
use model_lib.Base.Map.{Map, lookup, Entries, lookup-Entries}
use model_lib.Base.{
  ◌≡◌, ◌≢◌, ◌⊎◌, refl, sym, subst, inl, inr, Bool, true, false, List, [], ◌∷◌, Option, none, some,
  if◌then◌else◌, Bool-cases, Option-cases,
}
use model_lib.Routing.Host.{normalize_domain}
use model_lib.Tls.Contexts.{
  TlsCertificateConfig, SslContextHolder, TlsContextManager, TlsConnectionState, OpenSsl, one_label,
  matches_domain, context_manager,
}
use model_lib.Tls.Contexts.Selection.{
  Answer, accepted, unrecognized_name, find_suffix, or_suffix, find_context, by_default, select,
  found_context, named, server_name_callback,
}
use model_lib.Tls.Contexts.Binding.{Exact, Wild, Bound, context_manager-Bound}

module _ {X : Type 0} where
  find_suffix_matches :
      (host : Bytes) (m : Map Bytes (SslContextHolder X)) (h : SslContextHolder X)
      → Entries Wild m
      → find_suffix host m ≡ some h
      → matches_domain h host ≡ true
  unfolding find_suffix
  find_suffix_matches host [] h fits found = absurd (cc found)
  find_suffix_matches host ((suffix, w) ∷ m) h fits found =
      elim (Bool-cases (one_label suffix host)) [
        | inl e ↦
            let here : some w ≡ some h = rw e at found in
            let same : w ≡ h = cc here in
            subst (λ x. matches_domain x host ≡ true) same (fits.0 host e)
        | inr e ↦ find_suffix_matches host m h fits.1 (rw e at found)
      ]

  find_context_matches :
      (host : Bytes) (m : TlsContextManager X) (h : SslContextHolder X)
      → Bound m
      → find_context host m ≡ some h
      → matches_domain h host ≡ true
  unfolding find_context or_suffix
  find_context_matches host m h b found = elim (Option-cases (lookup host m.exact_contexts)) [
    | inl missing ↦ find_suffix_matches host m.wildcard_contexts h b.wild (rw missing at found)
    | inr (w, there) ↦
        let here : some w ≡ some h = rw there at found in
        let same : w ≡ h = cc here in
        subst (λ x. matches_domain x host ≡ true) same
          (lookup-Entries Exact host m.exact_contexts b.exact there)
  ]

  -- The certificate of an accepted connection is bound to the name asked for, or is the default one
  -- under a manager that does not reject unknown names.
  abbrev pub Chosen : TlsContextManager X → Bytes → TlsConnectionState X × Answer → Type 0
  Chosen m name (state, answer) =
      (answer ≢ accepted)
      ⊎ ((host : Bytes) × (h : SslContextHolder X) × (normalize_domain name ≡ some host)
          × (state.selected_context ≡ some h)
          × (matches_domain h host ≡ true))
      ⊎ ((m.reject_unknown_sni ≡ false) × (state.selected_context ≡ m.default_context))

  unknown-Chosen :
      (reject : Bool) (name : Bytes) (sni : Option Bytes) (m : TlsContextManager X)
      (state : TlsConnectionState X)
      → m.reject_unknown_sni ≡ reject
      → Chosen m name (if reject then (state, unrecognized_name) else by_default m sni)
  unfolding by_default
  unknown-Chosen true name sni m state e = inl (λ f. absurd (cc f))
  unknown-Chosen false name sni m state e = inr (inr (e, refl))

  known-Chosen :
      (takes : Bool) (name host : Bytes) (h : SslContextHolder X) (m : TlsContextManager X)
      (state : TlsConnectionState X)
      → normalize_domain name ≡ some host
      → matches_domain h host ≡ true
      → Chosen m name (select takes (some h) (some host) m state)
  unfolding select
  known-Chosen true name host h m state normal fits = inr (inl (host, h, normal, refl, fits))
  known-Chosen false name host h m state normal fits = inl (λ e. absurd (cc e))

  named-Chosen :
      (takes : Bool) (name : Bytes) (m : TlsContextManager X) (state : TlsConnectionState X)
      → Bound m
      → Chosen m name (named takes (normalize_domain name) m state)
  unfolding named found_context select
  named-Chosen takes name m state b = elim (Option-cases (normalize_domain name)) [
    | inl invalid ↦
        subst (λ o. Chosen m name (named takes o m state)) (sym invalid)
          (unknown-Chosen m.reject_unknown_sni name none m state refl)
    | inr (host, valid) ↦
        subst (λ o. Chosen m name (named takes o m state)) (sym valid)
          (elim (Option-cases (find_context host m)) [
            | inl missing ↦
                subst (λ o. Chosen m name (select takes o (some host) m state)) (sym missing)
                  (unknown-Chosen m.reject_unknown_sni name (some host) m state refl)
            | inr (h, found) ↦
                subst (λ o. Chosen m name (select takes o (some host) m state)) (sym found)
                  (known-Chosen takes name host h m state valid
                    (find_context_matches host m h b found))
          ])
  ]

-- With a manager that the constructor made, a connection that asks for a name and is accepted has a
-- certificate that is bound to the normal form of that name, exactly or with one label for its
-- wildcard; or, when unknown names are not rejected, the default certificate.
pub server_name_callback-Chosen :
    {X : Type 0} (openssl : OpenSsl X) (certificates : List TlsCertificateConfig)
    (reject takes : Bool) (m : TlsContextManager X) (name : Bytes) (state : TlsConnectionState X)
    → context_manager openssl certificates reject ≡ some m
    → Chosen m name (server_name_callback takes (some name) m state)
unfolding server_name_callback
server_name_callback-Chosen openssl certificates reject takes m name state made =
    named-Chosen takes name m state (context_manager-Bound openssl certificates reject m made)
