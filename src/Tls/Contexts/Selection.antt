-- ===== src/Tls/Contexts/Selection.antt =====
-- src/tls/TlsContextManager.cpp: the certificate of a connection.
use model_lib.Base.Bytes.{Bytes, bytes_eq, codes, equal, strip}
use model_lib.Base.Map.{Map, lookup}
use model_lib.Base.{Bool, true, false, [], ◌∷◌, Option, none, some, if◌then◌else◌, any}
use model_lib.Routing.Host.{normalize_domain}
use model_lib.Tls.Contexts.{
  SslContextHolder, TlsContextManager, TlsConnectionState, one_label, matches_domain,
}

-- What OpenSSL is told: to go on, or which alert to send.
pub data Answer : Type 0 where
  accepted unrecognized_name internal_error : Answer

module _ {X : Type 0} where
  unfoldable pub find_suffix : Bytes → Map Bytes (SslContextHolder X) → Option (SslContextHolder X)
  find_suffix host [] = none
  find_suffix host ((suffix, h) ∷ m) = if one_label suffix host then some h else find_suffix host m

  unfoldable pub or_suffix :
      Option (SslContextHolder X) → Bytes → TlsContextManager X → Option (SslContextHolder X)
  or_suffix (some h) host m = some h
  or_suffix none host m = find_suffix host m.wildcard_contexts

  unfoldable pub find_context : Bytes → TlsContextManager X → Option (SslContextHolder X)
  find_context host m = or_suffix (lookup host m.exact_contexts) host m

  unfoldable pub serves : Option (SslContextHolder X) → Bytes → Bool
  serves none name = false
  serves (some h) name = matches_domain h name

  unfoldable pub can_serve_normalized : Bool → Option Bytes → TlsContextManager X → Bool
  can_serve_normalized wildcard none m = false
  can_serve_normalized true (some suffix) m =
      any (λ (h : SslContextHolder X). any (λ s. equal s suffix) h.wildcard_domains) m.contexts
  can_serve_normalized false (some name) m = serves (find_context name m) name

  unfoldable pub can_serve_stripped : Bytes → Option Bytes → TlsContextManager X → Bool
  can_serve_stripped pattern none m = can_serve_normalized false (normalize_domain pattern) m
  can_serve_stripped pattern (some suffix) m = can_serve_normalized true (normalize_domain suffix) m

  unfoldable pub can_serve_domain : Bytes → TlsContextManager X → Bool
  can_serve_domain pattern m = can_serve_stripped pattern (strip (codes "*.") pattern) m

  unfoldable pub initialize_connection : TlsContextManager X → TlsConnectionState X
  initialize_connection m = record { selected_context = m.default_context; sni_host = none }

  unfoldable pub by_default : TlsContextManager X → Option Bytes → TlsConnectionState X × Answer
  by_default m sni = (record { selected_context = m.default_context; sni_host = sni }, accepted)

  -- `takes` says whether `SSL_set_SSL_CTX` takes the context.
  unfoldable pub select :
      Bool
      → Option (SslContextHolder X)
      → Option Bytes
      → TlsContextManager X
      → TlsConnectionState X
      → TlsConnectionState X × Answer
  select takes none sni m state =
      if m.reject_unknown_sni then (state, unrecognized_name) else by_default m sni
  select takes (some h) sni m state =
      if takes
      then (record { selected_context = some h; sni_host = sni }, accepted)
      else (state, internal_error)

  unfoldable pub found_context : Option Bytes → TlsContextManager X → Option (SslContextHolder X)
  found_context none m = none
  found_context (some host) m = find_context host m

  unfoldable pub named :
      Bool
      → Option Bytes
      → TlsContextManager X
      → TlsConnectionState X
      → TlsConnectionState X × Answer
  named takes sni m state = select takes (found_context sni m) sni m state

  -- `server_name_callback`, with the name that `SSL_get_servername` gives.
  unfoldable pub server_name_callback :
      Bool
      → Option Bytes
      → TlsContextManager X
      → TlsConnectionState X
      → TlsConnectionState X × Answer
  server_name_callback takes none m state = by_default m none
  server_name_callback takes (some name) m state = named takes (normalize_domain name) m state
