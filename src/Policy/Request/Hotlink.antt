-- ===== src/Policy/Request/Hotlink.antt =====
-- src/policy/RequestPolicy.cpp: hotlink protection.
use model_lib.Base.Bytes.{Bytes, codes, equal, is_empty}
use model_lib.Base.{Bool, false, not, ◌||◌, List, [], ◌∷◌, Option, none, some, if◌then◌else◌, any}
use model_lib.Policy.Request.{HotlinkSpec, PolicyDecision}
use model_lib.Policy.Request.Text.{target_extension, referer_host, wildcard_host_matches}

unfoldable pub hotlink_refusal : HotlinkSpec → PolicyDecision
hotlink_refusal spec =
    if is_empty spec.redirect_location
    then record {
      status = 403;
      body = codes "Hotlink protection denied the request";
      location = [];
      retry_after_seconds = 0;
    }
    else record {
      status = 302;
      body = [];
      location = spec.redirect_location;
      retry_after_seconds = 0;
    }

unfoldable pub host_allowed : List Bytes → Option Bytes → Bool
host_allowed hosts none = false
host_allowed hosts (some host) = any (λ pattern. wildcard_host_matches pattern host) hosts

unfoldable pub referer_allowed : HotlinkSpec → List Bytes → Bytes → Bool
referer_allowed spec hosts [] = spec.allow_empty_referer
referer_allowed spec hosts (c ∷ s) = host_allowed hosts (referer_host (c ∷ s))

unfoldable pub evaluate_hotlink :
    HotlinkSpec → List Bytes → List Bytes → Bytes → Bytes → Option PolicyDecision
evaluate_hotlink spec extensions hosts target text =
    if not spec.enabled || not (any (λ e. equal e (target_extension target)) extensions)
    then none
    else (if referer_allowed spec hosts text then none else some (hotlink_refusal spec))
