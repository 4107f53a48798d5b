-- ===== src/Policy/Request/Evaluate.antt =====
-- src/policy/RequestPolicy.cpp: `evaluate`, with the limiter that it leaves.
use model_lib.Base.Bytes.{Bytes, codes, equal}
use model_lib.Base.{ℕ, ◌&&◌, ◌||◌, [], Option, none, some, ltb, if◌then◌else◌, length}
use model_lib.Policy.Request.{PolicyDecision, RequestView, Libraries}
use model_lib.Policy.Request.Text.{ascii_lower}
use model_lib.Policy.Request.Rate.{
  Doubles, RateLimiter, Memory, Checked, passed, waits, no_memory, check,
}
use model_lib.Policy.Request.Acl.{Verdict, pass, throws, decided, evaluate_acl}
use model_lib.Policy.Request.Redirects.{https_location, evaluate_redirects}
use model_lib.Policy.Request.Hotlink.{evaluate_hotlink}
use model_lib.Policy.Request.Compile.{CompiledPolicy}

unfoldable pub refusal : ℕ → Bytes → ℕ → PolicyDecision
refusal status body retry_after = record {
  status = status;
  body = body;
  location = [];
  retry_after_seconds = retry_after;
}

unfoldable pub optional : Option PolicyDecision → Verdict
optional none = pass
optional (some d) = decided d

unfoldable pub redirect_or_hotlink : Option PolicyDecision → CompiledPolicy → RequestView → Verdict
redirect_or_hotlink (some d) p request = decided d
redirect_or_hotlink none p request = optional (
    evaluate_hotlink p.spec.hotlink p.hotlink_extensions p.hotlink_hosts request.target
      request.referer)

unfoldable pub evaluate_post_acl : CompiledPolicy → RequestView → Bytes → Bytes → Verdict
evaluate_post_acl p request host scheme =
    if p.spec.force_https && equal scheme (codes "http")
    then decided (record {
      status = 308;
      body = [];
      location = https_location p.spec.https_port host request.target;
      retry_after_seconds = 0;
    })
    else redirect_or_hotlink (evaluate_redirects request.target host p.redirects) p request

unfoldable pub or_else : Verdict → Verdict → Verdict
or_else pass later = later
or_else throws later = throws
or_else (decided d) later = decided d

module _ {D : Type 0} (libraries : Libraries) (doubles : Doubles D) (p : CompiledPolicy) where
  unfoldable pub after_check :
      RequestView → Bytes → Bytes → Bytes → RateLimiter D × Checked → RateLimiter D × Verdict
  after_check request client_ip host scheme (l, waits retry_after) =
      (l, decided (refusal 429 (codes "Rate limit exceeded") retry_after))
  after_check request client_ip host scheme (l, no_memory) = (l, throws)
  after_check request client_ip host scheme (l, passed) = (
    l,
    or_else (evaluate_acl libraries request client_ip host p.acl_rules)
        (evaluate_post_acl p request host scheme),
  )

  unfoldable pub after_pre :
      Verdict
      → Memory
      → ℕ
      → RequestView
      → Bytes
      → Bytes
      → Bytes
      → RateLimiter D
      → RateLimiter D × Verdict
  after_pre pass memory now request client_ip host scheme l =
      after_check request client_ip host scheme
        (check doubles p.spec.rate_limit memory now client_ip l)
  after_pre throws memory now request client_ip host scheme l = (l, throws)
  after_pre (decided d) memory now request client_ip host scheme l = (l, decided d)

  unfoldable pub evaluate :
      Memory → ℕ → RequestView → Bytes → Bytes → Bytes → RateLimiter D → RateLimiter D × Verdict
  evaluate memory now request client_ip host scheme l =
      let method = ascii_lower request.method in
      if equal method (codes "trace") || equal method (codes "track")
      then (l, decided (refusal 405 (codes "Method is not allowed") 0))
      else (if ltb 8192 (length request.target)
          then (l, decided (refusal 414 (codes "Request target is too long") 0))
          else after_pre (evaluate_acl libraries request client_ip host p.pre_rate_limit_acl_rules)
              memory now request client_ip host scheme l)
