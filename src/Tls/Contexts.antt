-- ===== src/Tls/Contexts.antt =====
-- src/tls/TlsContextManager.{hpp,cpp}: the choice of a certificate. `none` is an exception of a
-- constructor; what OpenSSL makes and checks of a certificate is a parameter.
pub mod Selection
pub mod Binding
pub mod Matching
mod Tests
use model_lib.Base.Bytes.{Bytes, bytes_eq, codes, equal, strip, is_empty, contains}
use model_lib.Base.Map.{Map, lookup, insert}
use model_lib.Base.{
  ℕ, ◌+◌, ◌-◌, Bool, true, false, not, ◌&&◌, ◌||◌, List, [], ◌∷◌, ◌++◌, Option, none, some, is_some,
  ltb, ◌==◌, if◌then◌else◌, ◌>>=◌, length, any, take,
}
use model_lib.Routing.Host.{normalize_domain}
use model_lib.Routing.Router.{under}

pub record TlsCertificateConfig : Type 0 where
  pub name : Bytes
  pub domains : List Bytes
  pub certificate_chain_file : Bytes
  pub private_key_file : Bytes
  pub is_default : Bool
  pub certificate_chain_pem : Bytes
  pub private_key_pem : Bytes

-- `X` are the contexts of OpenSSL.
pub record SslContextHolder (X : Type 0) : Type 0 where
  pub name : Bytes
  pub exact_domains : List Bytes
  pub wildcard_domains : List Bytes
  pub context : X

pub record TlsContextManager (X : Type 0) : Type 0 where
  pub contexts : List (SslContextHolder X)
  pub default_context : Option (SslContextHolder X)
  pub exact_contexts : Map Bytes (SslContextHolder X)
  pub wildcard_contexts : Map Bytes (SslContextHolder X)
  pub reject_unknown_sni : Bool

pub record TlsConnectionState (X : Type 0) : Type 0 where
  pub selected_context : Option (SslContextHolder X)
  pub sni_host : Option Bytes

-- The context of a certificate that is valid now and covers these patterns.
pub record OpenSsl (X : Type 0) : Type 0 where
  pub make_context : TlsCertificateConfig → List Bytes → Option X

-- The patterns, and the domains and suffixes among them.
pub record Domains : Type 0 where
  pub patterns : List Bytes
  pub exact : List Bytes
  pub wildcard : List Bytes

unfoldable pub put_pattern : Bool → Bytes → Domains → Domains
put_pattern true suffix d = record {
  patterns = d.patterns ++ (codes "*." ++ suffix) ∷ [];
  exact = d.exact;
  wildcard = d.wildcard ++ suffix ∷ [];
}
put_pattern false domain d = record {
  patterns = d.patterns ++ domain ∷ [];
  exact = d.exact ++ domain ∷ [];
  wildcard = d.wildcard;
}

unfoldable pub add_normalized : Bool → Option Bytes → Domains → Option Domains
add_normalized wildcard none d = none
add_normalized wildcard (some name) d =
    if wildcard && not (contains b'.' name)
    then none
    else (if any (λ p. equal p (if wildcard then codes "*." ++ name else name)) d.patterns
        then none
        else some (put_pattern wildcard name d))

unfoldable pub add_stripped : Bytes → Option Bytes → Domains → Option Domains
add_stripped pattern none d = add_normalized false (normalize_domain pattern) d
add_stripped pattern (some suffix) d = add_normalized true (normalize_domain suffix) d

unfoldable pub add_patterns : List Bytes → Domains → Option Domains
add_patterns [] d = some d
add_patterns (pattern ∷ patterns) d = do
  e ← add_stripped pattern (strip (codes "*.") pattern) d
  add_patterns patterns e

unfoldable pub normalize_domains : List Bytes → Option Domains
normalize_domains domains =
    if length domains == 0
    then none
    else add_patterns domains (record { patterns = []; exact = []; wildcard = [] })

-- The texts that a configuration of a certificate must have.
unfoldable pub sources_valid : TlsCertificateConfig → Bool
sources_valid c =
    let inline_pem = not (is_empty c.certificate_chain_pem) || not (is_empty c.private_key_pem) in
    not (is_empty c.name)
    && not (inline_pem && (is_empty c.certificate_chain_pem || is_empty c.private_key_pem))
    && not (not inline_pem && (is_empty c.certificate_chain_file || is_empty c.private_key_file))

-- One label in front of the suffix.
unfoldable pub one_label : Bytes → Bytes → Bool
one_label suffix host =
    under suffix host && not (contains b'.' (take (length host - length suffix - 1) host))

module _ {X : Type 0} where
  unfoldable pub holder : OpenSsl X → TlsCertificateConfig → Option (SslContextHolder X)
  holder openssl c = if not (sources_valid c) then none else do
    d ← normalize_domains c.domains
    x ← openssl.make_context c d.patterns
    some (record {
      name = c.name;
      exact_domains = d.exact;
      wildcard_domains = d.wildcard;
      context = x;
    })

  unfoldable pub matches_domain : SslContextHolder X → Bytes → Bool
  matches_domain h host =
      any (λ d. equal d host) h.exact_domains || any (λ s. one_label s host) h.wildcard_domains

  unfoldable pub bind_exact :
      SslContextHolder X → List Bytes → TlsContextManager X → Option (TlsContextManager X)
  bind_exact h [] m = some m
  bind_exact h (domain ∷ domains) m =
      if is_some (lookup domain m.exact_contexts)
      then none
      else bind_exact h domains (record m { exact_contexts = insert domain h m.exact_contexts })

  unfoldable pub bind_wildcards :
      SslContextHolder X → List Bytes → TlsContextManager X → Option (TlsContextManager X)
  bind_wildcards h [] m = some m
  bind_wildcards h (suffix ∷ suffixes) m =
      if is_some (lookup suffix m.wildcard_contexts)
      then none
      else bind_wildcards h suffixes
          (record m { wildcard_contexts = m.wildcard_contexts ++ (suffix, h) ∷ [] })

  -- The default is the one that is marked, or the first when none is.
  unfoldable pub choose_default :
      Bool → Bool → SslContextHolder X → TlsContextManager X → TlsContextManager X
  choose_default is_default none_marked h m =
      if is_default || not (is_some m.default_context) && none_marked
      then record m { default_context = some h }
      else m

  unfoldable pub keep_holder : SslContextHolder X → TlsContextManager X → TlsContextManager X
  keep_holder h m = record m { contexts = m.contexts ++ h ∷ [] }

  unfoldable pub add_certificates :
      OpenSsl X
      → Bool
      → List TlsCertificateConfig
      → TlsContextManager X
      → Option (TlsContextManager X)
  add_certificates openssl none_marked [] m = some m
  add_certificates openssl none_marked (c ∷ cs) m = do
    h ← holder openssl c
    e ← bind_exact h h.exact_domains (choose_default c.is_default none_marked h m)
    w ← bind_wildcards h h.wildcard_domains e
    add_certificates openssl none_marked cs (keep_holder h w)

  -- `std::sort` by the length of the suffix, the longest first, as insertion.
  unfoldable pub place_context :
      Bytes → SslContextHolder X → Map Bytes (SslContextHolder X) → Map Bytes (SslContextHolder X)
  place_context k v [] = (k, v) ∷ []
  place_context k v ((j, w) ∷ m) =
      if ltb (length j) (length k) then (k, v) ∷ (j, w) ∷ m else (j, w) ∷ place_context k v m

  unfoldable pub sort_contexts : Map Bytes (SslContextHolder X) → Map Bytes (SslContextHolder X)
  sort_contexts [] = []
  sort_contexts ((k, v) ∷ m) = place_context k v (sort_contexts m)

  unfoldable pub sorted : TlsContextManager X → TlsContextManager X
  sorted m = record m { wildcard_contexts = sort_contexts m.wildcard_contexts }

unfoldable pub distinct_names : List Bytes → List TlsCertificateConfig → Bool
distinct_names seen [] = true
distinct_names seen (c ∷ cs) =
    let rest = distinct_names (c.name ∷ seen) cs in
    if any (λ n. equal n c.name) seen then false else rest

unfoldable pub default_count : List TlsCertificateConfig → ℕ
default_count [] = 0
default_count (c ∷ cs) = (if c.is_default then 1 else 0) + default_count cs

module _ {X : Type 0} where
  -- The constructor.
  unfoldable pub context_manager :
      OpenSsl X → List TlsCertificateConfig → Bool → Option (TlsContextManager X)
  context_manager openssl certificates reject =
      if length certificates == 0
        || not (distinct_names [] certificates)
        || ltb 1 (default_count certificates)
      then none
      else do
        m ← add_certificates openssl (default_count certificates == 0) certificates (record {
          contexts = [];
          default_context = none;
          exact_contexts = [];
          wildcard_contexts = [];
          reject_unknown_sni = reject;
        })
        some (sorted m)
