-- ===== src/Policy/Request/Rulings.antt =====
-- src/policy/RequestPolicy.cpp: the compiled rules rule as the specification says.
use model_lib.Base.Bytes.{Bytes, is_empty}
use model_lib.Base.{
  ◌≡◌, refl, sym, ap, subst, inl, inr, ◌∙◌, Bool, true, false, not, ◌&&◌, ◌||◌, List, [], ◌∷◌,
  Option, some, ltb, ◌==◌, if◌then◌else◌, ◌>>=◌, >>=_some, length, all, Bool-cases,
}
use model_lib.Policy.Request.{
  AclConditionSpec, AclRuleSpec, SitePolicySpec, RequestView, Libraries, CompiledCondition,
  CompiledAclRule,
}
use model_lib.Policy.Request.Acl.{
  Verdict, pass, match_condition, field_value, rule_matches, act, evaluate_acl,
}
use model_lib.Policy.Request.Compile.{
  CompiledPolicy, compile_conditions, compile_rule, compile_rules, keep_enabled, denies, of_ip,
  selects_address, is_pre_rate_limit_ip_deny, rules_where, compile, action_valid,
}
use model_lib.Policy.Request.Answers.{compile-Compiled}
use model_lib.Policy.Request.Order.{
  AllMean, matches-holds, compile_conditions-AllMean, holds, applies, address_denial, ruling,
}

module _ (libraries : Libraries) where
  -- A compiled rule keeps its specification and the meaning of its conditions.
  abbrev RuleMeans : AclRuleSpec → CompiledAclRule → Type 0
  RuleMeans r x = (x.spec ≡ r) × AllMean libraries r.conditions x.conditions

  all_match :
      (request : RequestView) (client_ip host_name : Bytes) (cs : List AclConditionSpec)
      (xs : List CompiledCondition)
      → AllMean libraries cs xs
      → all
          (λ (x : CompiledCondition).
            match_condition libraries x
              (field_value request x.spec.field x.spec.header_name client_ip host_name))
          xs
        ≡ all (holds libraries request client_ip host_name) cs
  all_match request client_ip host_name [] [] m = refl
  all_match request client_ip host_name (c ∷ cs) (x ∷ xs) (m, ms) =
      let head = matches-holds libraries request client_ip host_name c x m in
      let rest = all_match request client_ip host_name cs xs ms in rw (head, rest) refl
  all_match request client_ip host_name [] (x ∷ xs) m = absurd m
  all_match request client_ip host_name (c ∷ cs) [] m = absurd m

  all_address :
      (cs : List AclConditionSpec) (xs : List CompiledCondition)
      → AllMean libraries cs xs
      → all (λ (x : CompiledCondition). of_ip x.spec.field && selects_address x.spec.operation) xs
        ≡ all (λ (c : AclConditionSpec). of_ip c.field && selects_address c.operation) cs
  all_address [] [] m = refl
  all_address (c ∷ cs) (x ∷ xs) (m, ms) =
      let head = ap (λ (s : AclConditionSpec). of_ip s.field && selects_address s.operation) m.0 in
      let rest = all_address cs xs ms in rw (head, rest) refl
  all_address [] (x ∷ xs) m = absurd m
  all_address (c ∷ cs) [] m = absurd m

  compile_rule-RuleMeans :
      (r : AclRuleSpec) (x : CompiledAclRule) → compile_rule libraries r ≡ some x → RuleMeans r x
  unfolding compile_rule
  compile_rule-RuleMeans r x made =
      elim (Bool-cases (
        is_empty r.name
        || ltb 128 (length r.name)
        || length r.conditions == 0
        || ltb 8 (length r.conditions)
        || not (action_valid r.action r))) [
          | inl bad ↦ absurd (let h = rw bad at made in cc h)
          | inr fine ↦
              let h : (compile_conditions libraries r.conditions
                    >>= (λ cs. some (record { spec = r; conditions = cs })))
                  ≡ some x =
                rw fine at made in
              let (cs, e, g) = >>=_some (compile_conditions libraries r.conditions) _ x h in
              let built : CompiledAclRule = record { spec = r; conditions = cs } in
              let same : built ≡ x = cc g in
              subst (RuleMeans r) same
                (refl, compile_conditions-AllMean libraries r.conditions cs e)
        ]

  matches-applies :
      (request : RequestView) (client_ip host_name : Bytes) (r : AclRuleSpec) (x : CompiledAclRule)
      → RuleMeans r x
      → rule_matches libraries request client_ip host_name x
        ≡ applies libraries request client_ip host_name r
  unfolding rule_matches applies
  matches-applies request client_ip host_name r x m =
      all_match request client_ip host_name r.conditions x.conditions m.1

  pre-address_denial :
      (r : AclRuleSpec) (x : CompiledAclRule)
      → RuleMeans r x
      → is_pre_rate_limit_ip_deny x ≡ address_denial libraries r
  unfolding is_pre_rate_limit_ip_deny address_denial
  pre-address_denial r x m =
      let spec = ap (λ (s : AclRuleSpec). denies s.action) m.0 in
      let conditions = all_address r.conditions x.conditions m.1 in rw (spec, conditions) refl

  -- One compiled rule in front of others.
  front_ruling :
      (request : RequestView) (client_ip host_name : Bytes) (early : Bool) (r : AclRuleSpec)
      (x : CompiledAclRule) (xs : List CompiledAclRule)
      → RuleMeans r x
      → evaluate_acl libraries request client_ip host_name (rules_where early (x ∷ xs)) ≡ (
          if (if early then address_denial libraries r else not (address_denial libraries r))
            && applies libraries request client_ip host_name r
          then act r.action r
          else evaluate_acl libraries request client_ip host_name (rules_where early xs))
  unfolding rules_where evaluate_acl
  front_ruling request client_ip host_name true r x xs m =
      let pre = pre-address_denial r x m in
      let here = matches-applies request client_ip host_name r x m in
      let answer = ap (λ (s : AclRuleSpec). act s.action s) m.0 in
      elim (Bool-cases (address_denial libraries r)) [
        | inl e ↦ rw (pre, e, here, answer) refl
        | inr e ↦ rw (pre, e) refl
      ]
  front_ruling request client_ip host_name false r x xs m =
      let pre = pre-address_denial r x m in
      let here = matches-applies request client_ip host_name r x m in
      let answer = ap (λ (s : AclRuleSpec). act s.action s) m.0 in
      elim (Bool-cases (address_denial libraries r)) [
        | inl e ↦ rw (pre, e) refl
        | inr e ↦ rw (pre, e, here, answer) refl
      ]

  -- Whether the rule is the one that a stage asks, and applies.
  abbrev asked : RequestView → Bytes → Bytes → Bool → AclRuleSpec → Bool
  asked request client_ip host_name early r =
      (if early then address_denial libraries r else not (address_denial libraries r))
      && applies libraries request client_ip host_name r

  enabled_ruling :
      (request : RequestView) (client_ip host_name : Bytes) (early on : Bool) (r : AclRuleSpec)
      (rest : Option (List CompiledAclRule)) (later : Verdict) (ys : List CompiledAclRule)
      → keep_enabled on (compile_rule libraries r) rest ≡ some ys
      → ((zs : List CompiledAclRule)
          → rest ≡ some zs
          → evaluate_acl libraries request client_ip host_name (rules_where early zs) ≡ later)
      → evaluate_acl libraries request client_ip host_name (rules_where early ys) ≡ (
          if on
            && (if early then address_denial libraries r else not (address_denial libraries r))
            && applies libraries request client_ip host_name r
          then act r.action r
          else later)
  unfolding keep_enabled
  enabled_ruling request client_ip host_name early false r rest later ys kept others =
      others ys kept
  enabled_ruling request client_ip host_name early true r rest later ys kept others =
      let (x, first, g) = >>=_some (compile_rule libraries r) _ ys kept in
      let (zs, behind, e) = >>=_some rest _ ys g in
      let same : x ∷ zs ≡ ys = cc e in
      ap (λ xs. evaluate_acl libraries request client_ip host_name (rules_where early xs))
        (sym same)
      ∙ front_ruling request client_ip host_name early r x zs (compile_rule-RuleMeans r x first)
      ∙ ap
          (λ (v : Verdict). if asked request client_ip host_name early r then act r.action r else v)
          (others zs behind)

  compile_rules-ruling :
      (request : RequestView) (client_ip host_name : Bytes) (early : Bool) (rs : List AclRuleSpec)
      (xs : List CompiledAclRule)
      → compile_rules libraries rs ≡ some xs
      → evaluate_acl libraries request client_ip host_name (rules_where early xs)
        ≡ ruling libraries request client_ip host_name early rs
  unfolding compile_rules ruling
  compile_rules-ruling request client_ip host_name early [] xs made =
      let same : [] ≡ xs = cc made in
      subst (λ ys. evaluate_acl libraries request client_ip host_name (rules_where early ys) ≡ pass)
        same (unfold rules_where evaluate_acl in refl)
  compile_rules-ruling request client_ip host_name early (r ∷ rs) xs made =
      enabled_ruling request client_ip host_name early r.enabled r (compile_rules libraries rs)
        (ruling libraries request client_ip host_name early rs) xs made
        (compile_rules-ruling request client_ip host_name early rs)

-- A policy that the constructor made rules as its specification says, where the range of a CIDR
-- operator is read at each match and no list is split: before the rate limit the first enabled
-- denial on the address alone that applies decides, and behind it the first enabled other rule.
pub compile-ruling :
    (libraries : Libraries) (s : SitePolicySpec) (domains : List Bytes) (p : CompiledPolicy)
    (request : RequestView) (client_ip host_name : Bytes)
    → compile libraries s domains ≡ some p
    → (evaluate_acl libraries request client_ip host_name p.pre_rate_limit_acl_rules
        ≡ ruling libraries request client_ip host_name true s.acl_rules)
      × (evaluate_acl libraries request client_ip host_name p.acl_rules
          ≡ ruling libraries request client_ip host_name false s.acl_rules)
compile-ruling libraries s domains p request client_ip host_name made =
    let c = compile-Compiled libraries s domains p made in
    (
      ap (evaluate_acl libraries request client_ip host_name) c.pre_rules
          ∙ compile_rules-ruling libraries request client_ip host_name true s.acl_rules c.rules
              c.made_rules,
      ap (evaluate_acl libraries request client_ip host_name) c.other_rules
          ∙ compile_rules-ruling libraries request client_ip host_name false s.acl_rules c.rules
              c.made_rules,
    )
