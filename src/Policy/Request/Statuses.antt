-- ===== src/Policy/Request/Statuses.antt =====
-- src/policy/RequestPolicy.cpp: a compiled policy decides, and never throws.
use model_lib.Base.Bytes.{Bytes, is_empty}
use model_lib.Base.{
  ℕ, ◌≡◌, ◌⊎◌, refl, sym, subst, inl, inr, Bool, true, false, not, ◌||◌, List, [], ◌∷◌, Option,
  some, arith, ltb, ◌==◌, ◌>>=◌, >>=_some, length, All, Bool-cases,
}
use model_lib.Policy.Request.{
  AclAction, allow, deny, redirect, return_status, AclRuleSpec, RedirectRuleSpec, PolicyDecision,
  RequestView, Libraries, CompiledAclRule,
}
use model_lib.Policy.Request.Text.{valid_redirect_status, normalized_host_pattern}
use model_lib.Policy.Request.Acl.{
  Verdict, pass, decided, with_status, act, rule_matches, evaluate_acl,
}
use model_lib.Policy.Request.Compile.{
  action_valid, compile_conditions, compile_rule, compile_rules, is_pre_rate_limit_ip_deny,
  rules_where, redirect_valid, normalize_source, compile_redirects, compile_redirect, keep_enabled,
}

-- The statuses with which a policy answers.
abbrev pub Known : ℕ → Type 0
Known n =
    (n ≡ 301)
    ⊎ (n ≡ 302)
    ⊎ (n ≡ 307)
    ⊎ (n ≡ 308)
    ⊎ (n ≡ 403)
    ⊎ (n ≡ 404)
    ⊎ (n ≡ 405)
    ⊎ (n ≡ 414)
    ⊎ (n ≡ 429)

-- The request goes on, or is answered with one of these statuses; nothing is thrown.
abbrev pub Answers : Verdict → Type 0
Answers v = (v ≡ pass) ⊎ ((d : PolicyDecision) × (v ≡ decided d) × Known d.status)

abbrev pub ActionFit : CompiledAclRule → Type 0
ActionFit r = action_valid r.spec.action r.spec ≡ true

abbrev pub RedirectFit : RedirectRuleSpec → Type 0
RedirectFit r = valid_redirect_status r.status ≡ true

pub redirect_Known : (n : ℕ) → valid_redirect_status n ≡ true → Known n
unfolding valid_redirect_status
redirect_Known n h = ground (arith, h)

compile_rule-ActionFit :
    (libraries : Libraries) (r : AclRuleSpec) (c : CompiledAclRule)
    → compile_rule libraries r ≡ some c
    → ActionFit c
unfolding compile_rule
compile_rule-ActionFit libraries r c made =
    elim (Bool-cases (
      is_empty r.name
      || ltb 128 (length r.name)
      || length r.conditions == 0
      || ltb 8 (length r.conditions)
      || not (action_valid r.action r))) [
        | inl bad ↦ absurd (let h = rw bad at made in cc h)
        | inr fine ↦
            let h : (compile_conditions libraries r.conditions
                  >>= (λ cs. some (record { spec = r; conditions = cs })))
                ≡ some c =
              rw fine at made in
            let (cs, _, e) = >>=_some (compile_conditions libraries r.conditions) _ c h in
            let same : record { spec = r; conditions = cs } ≡ c = cc e in
            let valid : action_valid r.action r ≡ true = ground (arith, fine) in
            subst ActionFit same valid
      ]

keep_enabled-All :
    {A : Type 0} (P : A → Type 0) (on : Bool) (rule : Option A) (rest : Option (List A))
    (xs : List A)
    → keep_enabled on rule rest ≡ some xs
    → ((x : A) → rule ≡ some x → P x)
    → ((ys : List A) → rest ≡ some ys → All P ys)
    → All P xs
unfolding keep_enabled
keep_enabled-All P false rule rest xs made one others = others xs made
keep_enabled-All P true rule rest xs made one others =
    let (x, first, g) = >>=_some rule _ xs made in
    let (ys, behind, e) = >>=_some rest _ xs g in
    let same : x ∷ ys ≡ xs = cc e in subst (All P) same (one x first, others ys behind)

pub compile_rules-ActionFit :
    (libraries : Libraries) (rs : List AclRuleSpec) (cs : List CompiledAclRule)
    → compile_rules libraries rs ≡ some cs
    → All ActionFit cs
unfolding compile_rules
compile_rules-ActionFit libraries [] cs made =
    let same : [] ≡ cs = cc made in subst (All ActionFit) same tt
compile_rules-ActionFit libraries (r ∷ rs) cs made =
    keep_enabled-All ActionFit r.enabled (compile_rule libraries r) (compile_rules libraries rs) cs
      made (compile_rule-ActionFit libraries r) (compile_rules-ActionFit libraries rs)

pub rules_where-All :
    (P : CompiledAclRule → Type 0) (pre : Bool) (rs : List CompiledAclRule)
    → All P rs
    → All P (rules_where pre rs)
unfolding rules_where
rules_where-All P pre [] h = tt
rules_where-All P true (r ∷ rs) h = elim (Bool-cases (is_pre_rate_limit_ip_deny r)) [
  | inl e ↦ rw e (h.0, rules_where-All P true rs h.1)
  | inr e ↦ rw e (rules_where-All P true rs h.1)
]
rules_where-All P false (r ∷ rs) h = elim (Bool-cases (is_pre_rate_limit_ip_deny r)) [
  | inl e ↦ rw e (rules_where-All P false rs h.1)
  | inr e ↦ rw e (h.0, rules_where-All P false rs h.1)
]

with_status-Answers :
    (n : ℕ) (d : PolicyDecision) → Known n → d.status ≡ n → Answers (with_status n d)
unfolding with_status
with_status-Answers n d known same =
    let in_range : (ltb n 300 || ltb 599 n) ≡ false = ground (arith, known) in
    rw in_range (inr (d, refl, subst Known (sym same) known))

act-Answers : (a : AclAction) (r : AclRuleSpec) → action_valid a r ≡ true → Answers (act a r)
unfolding act action_valid
act-Answers allow r valid = inl refl
act-Answers redirect r valid =
    with_status-Answers r.status _ (redirect_Known r.status (ground (arith, valid))) refl
act-Answers deny r valid = with_status-Answers r.status _ (ground (arith, valid)) refl
act-Answers return_status r valid = with_status-Answers r.status _ (ground (arith, valid)) refl

pub evaluate_acl-Answers :
    (libraries : Libraries) (request : RequestView) (client_ip host : Bytes)
    (rs : List CompiledAclRule)
    → All ActionFit rs
    → Answers (evaluate_acl libraries request client_ip host rs)
unfolding evaluate_acl
evaluate_acl-Answers libraries request client_ip host [] fit = inl refl
evaluate_acl-Answers libraries request client_ip host (r ∷ rs) fit =
    elim (Bool-cases (rule_matches libraries request client_ip host r)) [
      | inl e ↦ rw e (act-Answers r.spec.action r.spec fit.0)
      | inr e ↦ rw e (evaluate_acl-Answers libraries request client_ip host rs fit.1)
    ]

normalize_source-RedirectFit :
    (r s : RedirectRuleSpec) → RedirectFit r → normalize_source r ≡ some s → RedirectFit s
unfolding normalize_source
normalize_source-RedirectFit r s fit made = elim (Bool-cases (is_empty r.source_host)) [
  | inl e ↦
      let h : some r ≡ some s = rw e at made in
      let same : r ≡ s = cc h in subst RedirectFit same fit
  | inr e ↦
      let h : (normalized_host_pattern r.source_host >>= (λ p. some (record r { source_host = p })))
          ≡ some s =
        rw e at made in
      let (p, _, g) = >>=_some (normalized_host_pattern r.source_host) _ s h in
      let same : record r { source_host = p } ≡ s = cc g in subst RedirectFit same fit
]

redirect_valid_status : (r : RedirectRuleSpec) → redirect_valid r ≡ true → RedirectFit r
unfolding redirect_valid
redirect_valid_status r valid = ground (arith, valid)

compile_redirect-RedirectFit :
    (r s : RedirectRuleSpec) → compile_redirect r ≡ some s → RedirectFit s
unfolding compile_redirect
compile_redirect-RedirectFit r s made = elim (Bool-cases (redirect_valid r)) [
  | inr bad ↦ absurd (let h = rw bad at made in cc h)
  | inl fine ↦ normalize_source-RedirectFit r s (redirect_valid_status r fine) (rw fine at made)
]

pub compile_redirects-RedirectFit :
    (rs cs : List RedirectRuleSpec) → compile_redirects rs ≡ some cs → All RedirectFit cs
unfolding compile_redirects
compile_redirects-RedirectFit [] cs made =
    let same : [] ≡ cs = cc made in subst (All RedirectFit) same tt
compile_redirects-RedirectFit (r ∷ rs) cs made =
    keep_enabled-All RedirectFit r.enabled (compile_redirect r) (compile_redirects rs) cs made
      (compile_redirect-RedirectFit r) (compile_redirects-RedirectFit rs)
