-- ===== src/Policy/Request/Redirects.antt =====
-- src/policy/RequestPolicy.cpp: `force_https` and the redirect rules.
use model_lib.Base.Bytes.{Bytes, codes, decimal_text, equal, starts_with, is_empty, contains}
use model_lib.Base.{
  ℕ, Bool, not, ◌&&◌, ◌||◌, List, [], ◌∷◌, ◌++◌, Option, none, some, ◌==◌, if◌then◌else◌, length,
  drop,
}
use model_lib.Policy.Request.{RedirectMatch, exact, prefix, RedirectRuleSpec, PolicyDecision}
use model_lib.Policy.Request.Text.{split_target, wildcard_host_matches, append_path}

unfoldable pub path_matches : RedirectMatch → Bytes → Bytes → Bool
path_matches exact source path = equal path source
path_matches prefix source path = starts_with source path

-- A `source_host` that is empty stands for every host.
unfoldable pub redirect_matches : Bytes → Bytes → RedirectRuleSpec → Bool
redirect_matches path host rule =
    (is_empty rule.source_host || wildcard_host_matches rule.source_host host)
    && path_matches rule.match rule.source_path path

unfoldable pub preserved_path : RedirectMatch → Bytes → Bytes → Bytes
preserved_path exact source path = path
preserved_path prefix source path = drop (length source) path

unfoldable pub with_path : RedirectRuleSpec → Bytes → Bytes
with_path rule path =
    if rule.preserve_path
    then append_path rule.destination (preserved_path rule.match rule.source_path path)
    else rule.destination

unfoldable pub with_query : Bool → Bytes → Bytes → Bytes
with_query preserve query location =
    if preserve && not (is_empty query)
    then location ++ (if contains b'?' location then b'&' else b'?') ∷ query
    else location

unfoldable pub redirect_location : RedirectRuleSpec → Bytes → Bytes → Bytes
redirect_location rule path query = with_query rule.preserve_query query (with_path rule path)

unfoldable pub first_redirect :
    Bytes → Bytes → Bytes → List RedirectRuleSpec → Option PolicyDecision
first_redirect path query host [] = none
first_redirect path query host (rule ∷ rules) =
    if redirect_matches path host rule
    then some (record {
      status = rule.status;
      body = [];
      location = redirect_location rule path query;
      retry_after_seconds = 0;
    })
    else first_redirect path query host rules

unfoldable pub evaluate_redirects : Bytes → Bytes → List RedirectRuleSpec → Option PolicyDecision
evaluate_redirects target host rules =
    first_redirect (split_target target).0 (split_target target).1 host rules

-- The location of `force_https`. An address of version 6 stands in brackets.
unfoldable pub https_location : ℕ → Bytes → Bytes → Bytes
https_location port host target =
    codes "https://"
    ++ ((if contains b':' host then b'[' ∷ (host ++ b']' ∷ []) else host)
        ++ ((if port == 443 then [] else b':' ∷ decimal_text 5 port) ++ target))
