-- ===== src/Policy/Request/Answers.antt =====
-- src/policy/RequestPolicy.cpp: what `evaluate` answers under a policy that the constructor made.
use model_lib.Base.Bytes.{Bytes, codes, equal, is_empty, bytes_eq}
use model_lib.Base.{
  ℕ, Bool, ◌≡◌, ◌≢◌, ◌⊎◌, refl, sym, subst, inl, inr, true, false, not, ◌&&◌, ◌||◌, List, [], ◌∷◌,
  ◌++◌, Option, none, some, arith, ltb, >>=_some, length, All, Bool-cases, any, Option-cases,
}
use model_lib.Policy.Request.{
  RedirectRuleSpec, SitePolicySpec, RequestView, Libraries, CompiledAclRule, HotlinkSpec,
  RateLimitSpec,
}
use model_lib.Policy.Request.Text.{split_target, target_extension, ascii_lower}
use model_lib.Policy.Request.Rate.{
  Doubles, Entry, RateLimiter, Memory, enough, no_node, no_entry, Checked, passed, waits, no_memory,
  checked, if_enabled, admit_new, check_entry, check_counted, make_space, count_request, check,
  rate_limit_valid,
}
use model_lib.Policy.Request.Acl.{Verdict, pass, throws, decided, evaluate_acl}
use model_lib.Policy.Request.Redirects.{evaluate_redirects, first_redirect, redirect_matches}
use model_lib.Policy.Request.Hotlink.{evaluate_hotlink, hotlink_refusal, referer_allowed}
use model_lib.Policy.Request.Compile.{
  CompiledPolicy, compile_rules, rules_where, compile_redirects, compile, require, at_most,
  host_patterns, extensions, hotlink_valid,
}
use model_lib.Policy.Request.Evaluate.{
  refusal, optional, redirect_or_hotlink, evaluate_post_acl, or_else, after_check, after_pre,
  evaluate,
}
use model_lib.Policy.Request.Statuses.{
  Answers, ActionFit, RedirectFit, redirect_Known, rules_where-All, compile_rules-ActionFit,
  compile_redirects-RedirectFit, evaluate_acl-Answers,
}

-- What the constructor made of the specification.
pub record Compiled (libraries : Libraries) (s : SitePolicySpec) (p : CompiledPolicy) : Type 0 where
  pub rules : List CompiledAclRule
  pub made_rules : compile_rules libraries s.acl_rules ≡ some rules
  pub pre_rules : p.pre_rate_limit_acl_rules ≡ rules_where true rules
  pub other_rules : p.acl_rules ≡ rules_where false rules
  pub made_redirects : compile_redirects s.redirects ≡ some p.redirects
  pub same_spec : p.spec ≡ s

pub compile-Compiled :
    (libraries : Libraries) (s : SitePolicySpec) (domains : List Bytes) (p : CompiledPolicy)
    → compile libraries s domains ≡ some p
    → Compiled libraries s p
unfolding compile
compile-Compiled libraries s domains p made =
    let (_, _, h1) = >>=_some (require (rate_limit_valid s.rate_limit)) _ p made in
    let (own, _, h2) = >>=_some (host_patterns domains) _ p h1 in
    let (allowed, _, h3) = >>=_some (host_patterns s.hotlink.allowed_hosts) _ p h2 in
    let (endings, _, h4) = >>=_some (extensions s.hotlink.protected_extensions) _ p h3 in
    let (_, _, h5) = >>=_some (require (hotlink_valid s.hotlink endings)) _ p h4 in
    let (_, _, h6) = >>=_some (at_most 200 s.acl_rules) _ p h5 in
    let (rules, made_rules, h7) = >>=_some (compile_rules libraries s.acl_rules) _ p h6 in
    let (_, _, h8) = >>=_some (at_most 100 s.redirects) _ p h7 in
    let (redirects, made_redirects, e) = >>=_some (compile_redirects s.redirects) _ p h8 in
    let built : CompiledPolicy = record {
      spec = s;
      pre_rate_limit_acl_rules = rules_where true rules;
      acl_rules = rules_where false rules;
      redirects = redirects;
      hotlink_extensions = endings;
      hotlink_hosts = own ++ allowed;
    } in
    let same : built ≡ p = cc e in
    subst (Compiled libraries s) same record {
      rules = rules;
      made_rules = made_rules;
      pre_rules = refl;
      other_rules = refl;
      made_redirects = made_redirects;
      same_spec = refl;
    }

first_redirect-Answers :
    (path query host : Bytes) (rs : List RedirectRuleSpec)
    → All RedirectFit rs
    → Answers (optional (first_redirect path query host rs))
unfolding first_redirect optional
first_redirect-Answers path query host [] fit = inl refl
first_redirect-Answers path query host (r ∷ rs) fit =
    elim (Bool-cases (redirect_matches path host r)) [
      | inl e ↦ rw e (inr (_, refl, redirect_Known r.status fit.0))
      | inr e ↦ rw e (first_redirect-Answers path query host rs fit.1)
    ]

hotlink-Answers :
    (spec : HotlinkSpec) (endings hosts : List Bytes) (target text : Bytes)
    → Answers (optional (evaluate_hotlink spec endings hosts target text))
unfolding evaluate_hotlink hotlink_refusal optional
hotlink-Answers spec endings hosts target text =
    elim (Bool-cases
      (not spec.enabled || not (any (λ e. equal e (target_extension target)) endings))) [
        | inl e ↦ rw e (inl refl)
        | inr e ↦ elim (Bool-cases (referer_allowed spec hosts text)) [
          | inl f ↦ rw (e, f) (inl refl)
          | inr f ↦ elim (Bool-cases (is_empty spec.redirect_location)) [
            | inl g ↦ rw (e, f, g) (inr (_, refl, omega arith))
            | inr g ↦ rw (e, f, g) (inr (_, refl, omega arith))
          ]
        ]
      ]

post-Answers :
    (p : CompiledPolicy) (request : RequestView) (host scheme : Bytes)
    → All RedirectFit p.redirects
    → Answers (evaluate_post_acl p request host scheme)
unfolding evaluate_post_acl evaluate_redirects redirect_or_hotlink optional
post-Answers p request host scheme fit =
    elim (Bool-cases (p.spec.force_https && equal scheme (codes "http"))) [
      | inl e ↦ rw e (inr (_, refl, omega arith))
      | inr e ↦
          let parts = split_target request.target in
          let first = first_redirect-Answers parts.0 parts.1 host p.redirects fit in
          elim (Option-cases (first_redirect parts.0 parts.1 host p.redirects)) [
            | inl f ↦
                rw (e, f)
                  (hotlink-Answers p.spec.hotlink p.hotlink_extensions p.hotlink_hosts
                    request.target request.referer)
            | inr (d, f) ↦ rw (e, f) (rw f at first)
          ]
    ]

or_else-Answers : (v w : Verdict) → Answers v → Answers w → Answers (or_else v w)
unfolding or_else
or_else-Answers pass w hv hw = hw
or_else-Answers throws w hv hw = hv
or_else-Answers (decided d) w hv hw = hv

-- The statuses, or the exception that a lack of memory leaves.
abbrev pub Ends : Memory → Verdict → Type 0
Ends memory v = Answers v ⊎ ((v ≡ throws) × (memory ≢ enough))

abbrev Reported : {D : Type 0} → Memory → RateLimiter D × Checked → Type 0
Reported memory r = (memory ≢ enough) ⊎ (r.1 ≢ no_memory)

admit_new-Reported :
    {D : Type 0} (doubles : Doubles D) (spec : RateLimitSpec) (memory : Memory) (now : ℕ)
    (key : Bytes) (l : RateLimiter D)
    → Reported memory (admit_new doubles spec memory now key l)
unfolding admit_new
admit_new-Reported doubles spec enough now key l = inr (ground arith)
admit_new-Reported doubles spec no_node now key l = inl (ground arith)
admit_new-Reported doubles spec no_entry now key l = inl (ground arith)

checked_passes : (answer : Option ℕ) → checked answer ≢ no_memory
unfolding checked
checked_passes none = ground arith
checked_passes (some seconds) = ground arith

check_entry-Reported :
    {D : Type 0} (doubles : Doubles D) (spec : RateLimitSpec) (memory : Memory)
    (entry : Option (Entry D)) (now : ℕ) (key : Bytes) (l : RateLimiter D)
    → Reported memory (check_entry doubles spec memory entry now key l)
unfolding check_entry
check_entry-Reported doubles spec memory none now key l =
    admit_new-Reported doubles spec memory now key (make_space l)
check_entry-Reported doubles spec memory (some e) now key l = inr (checked_passes _)

if_enabled-Reported :
    {D : Type 0} (memory : Memory) (on : Bool) (l : RateLimiter D)
    (result : RateLimiter D × Checked)
    → Reported memory result
    → Reported memory (if_enabled on l result)
unfolding if_enabled
if_enabled-Reported memory true l result h = h
if_enabled-Reported memory false l result h = inr (ground arith)

-- `check` throws for a lack of memory only.
check-Reported :
    {D : Type 0} (doubles : Doubles D) (spec : RateLimitSpec) (memory : Memory) (now : ℕ)
    (key : Bytes) (l : RateLimiter D)
    → Reported memory (check doubles spec memory now key l)
unfolding check check_counted
check-Reported doubles spec memory now key l =
    if_enabled-Reported memory spec.enabled l _
      (check_entry-Reported doubles spec memory _ now key (count_request spec now l))

module _ {D : Type 0} (libraries : Libraries) (doubles : Doubles D) (p : CompiledPolicy) where
  checked-Answers :
      (memory : Memory) (request : RequestView) (client_ip host scheme : Bytes)
      (r : RateLimiter D × Checked)
      → Reported memory r
      → Answers (
          or_else
            (evaluate_acl libraries request client_ip host p.acl_rules)
            (evaluate_post_acl p request host scheme))
      → Ends memory (after_check libraries doubles p request client_ip host scheme r).1
  unfolding after_check refusal
  checked-Answers memory request client_ip host scheme (l, passed) reported h = inl h
  checked-Answers memory request client_ip host scheme (l, waits n) reported h =
      inl (inr (_, refl, omega arith))
  checked-Answers memory request client_ip host scheme (l, no_memory) reported h =
      inr (refl, elim reported [ inl failed ↦ failed | inr other ↦ absurd (other refl) ])

-- Under a policy that the constructor made, and whatever memory there is for the entry of a new client
-- in the rate limiter, `evaluate` throws only for a lack of that memory: otherwise a request goes on or
-- is answered with one of the statuses 301, 302, 307, 308, 403, 404, 405, 414 and 429.
pub evaluate-Answers :
    {D : Type 0} (libraries : Libraries) (doubles : Doubles D) (s : SitePolicySpec)
    (domains : List Bytes) (p : CompiledPolicy) (memory : Memory) (now : ℕ) (request : RequestView)
    (client_ip host scheme : Bytes) (l : RateLimiter D)
    → compile libraries s domains ≡ some p
    → Ends memory (evaluate libraries doubles p memory now request client_ip host scheme l).1
unfolding evaluate after_pre refusal
evaluate-Answers libraries doubles s domains p memory now request client_ip host scheme l made =
    let c = compile-Compiled libraries s domains p made in
    let fit = compile_rules-ActionFit libraries s.acl_rules c.rules c.made_rules in
    let pre =
      evaluate_acl-Answers libraries request client_ip host p.pre_rate_limit_acl_rules
        (subst (All ActionFit) (sym c.pre_rules) (rules_where-All ActionFit true c.rules fit)) in
    let later =
      or_else-Answers (evaluate_acl libraries request client_ip host p.acl_rules)
        (evaluate_post_acl p request host scheme)
        (evaluate_acl-Answers libraries request client_ip host p.acl_rules
          (subst (All ActionFit) (sym c.other_rules) (rules_where-All ActionFit false c.rules fit)))
        (post-Answers p request host scheme
          (compile_redirects-RedirectFit s.redirects p.redirects c.made_redirects)) in
    let lower = ascii_lower request.method in
    elim (Bool-cases (equal lower (codes "trace") || equal lower (codes "track"))) [
      | inl e ↦ rw e (inl (inr (_, refl, omega arith)))
      | inr e ↦ elim (Bool-cases (ltb 8192 (length request.target))) [
        | inl f ↦ rw (e, f) (inl (inr (_, refl, omega arith)))
        | inr f ↦ elim pre [
          | inl cleared ↦
              rw (e, f, cleared)
                (checked-Answers libraries doubles p memory request client_ip host scheme
                  (check doubles p.spec.rate_limit memory now client_ip l)
                  (check-Reported doubles p.spec.rate_limit memory now client_ip l) later)
          | inr (d, answered, known) ↦ rw (e, f, answered) (inl (inr (d, refl, known)))
        ]
      ]
    ]
