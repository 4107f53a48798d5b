-- ===== src/Tls/Contexts/Tests.antt =====
-- Two certificates, and the theorem for a name under a wildcard. A context is the name of its
-- certificate.
use model_lib.Base.Bytes.{Bytes, codes, equal, strip}
use model_lib.Base.Map.{lookup, insert}
use model_lib.Base.{◌≡◌, refl, true, false, List, [], ◌∷◌, none, some}
use model_lib.Routing.Host.{normalize_domain}
use model_lib.Routing.Router.{under, byte_is}
use model_lib.Tls.Contexts.{
  TlsCertificateConfig, SslContextHolder, TlsContextManager, TlsConnectionState, OpenSsl,
  put_pattern, add_normalized, add_stripped, add_patterns, normalize_domains, sources_valid,
  one_label, holder, matches_domain, bind_exact, bind_wildcards, choose_default, keep_holder,
  add_certificates, place_context, sort_contexts, sorted, distinct_names, default_count,
  context_manager,
}
use model_lib.Tls.Contexts.Selection.{
  unrecognized_name, find_suffix, or_suffix, find_context, can_serve_domain, can_serve_stripped,
  can_serve_normalized, serves, select, found_context, named, server_name_callback,
}
use model_lib.Tls.Contexts.Matching.{Chosen, server_name_callback-Chosen}

abbrev any_certificate : OpenSsl Bytes
any_certificate = record { make_context = λ c patterns. some c.name }

abbrev certificate : Bytes → List Bytes → TlsCertificateConfig
certificate name domains = record {
  name = name;
  domains = domains;
  certificate_chain_file = codes "chain.pem";
  private_key_file = codes "key.pem";
  is_default = false;
  certificate_chain_pem = [];
  private_key_pem = [];
}

abbrev wide : SslContextHolder Bytes
wide = record {
  name = codes "wide";
  exact_domains = codes "example.com" ∷ [];
  wildcard_domains = codes "example.com" ∷ [];
  context = codes "wide";
}

abbrev shop : SslContextHolder Bytes
shop = record {
  name = codes "shop";
  exact_domains = codes "shop.test" ∷ [];
  wildcard_domains = [];
  context = codes "shop";
}

abbrev certificates : List TlsCertificateConfig
certificates =
    certificate (codes "wide") (codes "Example.com" ∷ codes "*.example.com" ∷ [])
    ∷ certificate (codes "shop") (codes "shop.test" ∷ [])
    ∷ []

abbrev manager : TlsContextManager Bytes
manager = record {
  contexts = wide ∷ shop ∷ [];
  default_context = some wide;
  exact_contexts = (codes "example.com", wide) ∷ (codes "shop.test", shop) ∷ [];
  wildcard_contexts = (codes "example.com", wide) ∷ [];
  reject_unknown_sni = true;
}

made : context_manager any_certificate certificates true ≡ some manager
unfolding context_manager distinct_names default_count add_certificates holder sources_valid
    normalize_domains add_patterns add_stripped add_normalized put_pattern bind_exact bind_wildcards
    choose_default keep_holder sorted sort_contexts place_context normalize_domain strip equal
    lookup insert
made = refl

abbrev fresh_state : TlsConnectionState Bytes
fresh_state = record { selected_context = some wide; sni_host = none }

under_wildcard :
    (server_name_callback true (some (codes "A.example.com")) manager fresh_state).0.sni_host
    ≡ some (codes "a.example.com")
unfolding server_name_callback named found_context find_context or_suffix find_suffix select
    one_label under byte_is normalize_domain strip equal lookup
under_wildcard = refl

two_labels :
    (server_name_callback true (some (codes "b.a.example.com")) manager fresh_state).1
    ≡ unrecognized_name
unfolding server_name_callback named found_context find_context or_suffix find_suffix select
    one_label under byte_is normalize_domain strip equal lookup
two_labels = refl

served : can_serve_domain (codes "*.example.com") manager ≡ true
unfolding can_serve_domain can_serve_stripped can_serve_normalized serves find_context or_suffix
    find_suffix matches_domain normalize_domain strip equal lookup
served = refl

server_name_callback-Chosen_example :
    Chosen manager
      (codes "A.example.com")
      (server_name_callback true (some (codes "A.example.com")) manager fresh_state)
server_name_callback-Chosen_example =
    server_name_callback-Chosen any_certificate certificates true true manager
      (codes "A.example.com") fresh_state made
