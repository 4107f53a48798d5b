-- ===== src/Policy/Request/Order.antt =====
-- src/policy/RequestPolicy.cpp: the rules read directly from the specification, and what the
-- compiled policy makes of them.
use model_lib.Base.Bytes.{Bytes, is_empty}
use model_lib.Base.{
  ◌≡◌, sym, ap, subst, inl, inr, ◌∙◌, Bool, true, false, not, ◌&&◌, ◌||◌, List, [], ◌∷◌, none, some,
  ltb, if◌then◌else◌, >>=_some, length, all, Bool-cases,
}
use model_lib.Policy.Request.{
  AclField, ip, uri, host, method, user_agent, referer, header, MatchOperator, AclConditionSpec,
  AclRuleSpec, RequestView, Libraries, CompiledCondition,
}
use model_lib.Policy.Request.Acl.{
  Verdict, pass, in_range, match_text, match_operation, match_condition, field_value, act,
}
use model_lib.Policy.Request.Compile.{
  parse_acl_cidr, compile_cidr, compile_operation, compile_condition, compile_conditions, denies,
  of_ip, selects_address, header_named,
}

module _ (libraries : Libraries) where
  -- The meaning of a condition: the range of a CIDR operator is read at each match.
  unfoldable pub holds_operation : MatchOperator → AclConditionSpec → Bytes → Bool
  holds_operation MatchOperator.regex c candidate =
      libraries.partial_match c.value c.case_sensitive candidate
  holds_operation MatchOperator.in_cidr c candidate =
      in_range (parse_acl_cidr libraries c.value) (libraries.make_address candidate) true
  holds_operation MatchOperator.not_in_cidr c candidate =
      in_range (parse_acl_cidr libraries c.value) (libraries.make_address candidate) false
  holds_operation operation c candidate = match_text c candidate

  unfoldable pub holds : RequestView → Bytes → Bytes → AclConditionSpec → Bool
  holds request client_ip host_name c =
      holds_operation c.operation c (field_value request c.field c.header_name client_ip host_name)

  unfoldable pub applies : RequestView → Bytes → Bytes → AclRuleSpec → Bool
  applies request client_ip host_name r = all (holds request client_ip host_name) r.conditions

  -- A denial that looks at the address alone, and so comes before the rate limit.
  unfoldable pub address_denial : AclRuleSpec → Bool
  address_denial r =
      denies r.action
      && all (λ (c : AclConditionSpec). of_ip c.field && selects_address c.operation) r.conditions

  -- The first enabled rule of the one kind or the other that applies decides.
  unfoldable pub ruling : RequestView → Bytes → Bytes → Bool → List AclRuleSpec → Verdict
  ruling request client_ip host_name early [] = pass
  ruling request client_ip host_name early (r ∷ rs) =
      if r.enabled
        && (if early then address_denial r else not (address_denial r))
        && applies request client_ip host_name r
      then act r.action r
      else ruling request client_ip host_name early rs

  compile_cidr_range :
      (f : AclField) (c : AclConditionSpec) (x : CompiledCondition)
      → compile_cidr libraries f c ≡ some x
      → (x.spec ≡ c) × (x.cidr ≡ parse_acl_cidr libraries c.value)
  unfolding compile_cidr
  compile_cidr_range ip c x made =
      let (range, e, g) = >>=_some (parse_acl_cidr libraries c.value) _ x made in
      let same : record { spec = c; cidr = some range } ≡ x = cc g in
      (
        ap (λ (y : CompiledCondition). y.spec) (sym same),
        ap (λ (y : CompiledCondition). y.cidr) (sym same) ∙ sym e,
      )
  compile_cidr_range uri c x made = absurd (cc made)
  compile_cidr_range host c x made = absurd (cc made)
  compile_cidr_range method c x made = absurd (cc made)
  compile_cidr_range user_agent c x made = absurd (cc made)
  compile_cidr_range referer c x made = absurd (cc made)
  compile_cidr_range header c x made = absurd (cc made)

  -- A compiled condition keeps its specification, and matches where that holds.
  abbrev pub Means : MatchOperator → AclConditionSpec → CompiledCondition → Type 0
  Means op c x =
      (x.spec ≡ c)
      × ((candidate : Bytes)
          → match_operation libraries op x candidate ≡ holds_operation op c candidate)

  plain_Means :
      (c : AclConditionSpec) (x : CompiledCondition)
      → some (record { spec = c; cidr = none }) ≡ some x
      → (x.spec ≡ c) × ((candidate : Bytes) → match_text x.spec candidate ≡ match_text c candidate)
  plain_Means c x made =
      let built : CompiledCondition = record { spec = c; cidr = none } in
      let same : built ≡ x = cc made in
      let spec = ap (λ (y : CompiledCondition). y.spec) (sym same) in
      (spec, λ candidate. ap (λ y. match_text y candidate) spec)

  compile_operation-Means :
      (op : MatchOperator) (c : AclConditionSpec) (x : CompiledCondition)
      → compile_operation libraries op c ≡ some x
      → Means op c x
  unfolding compile_operation match_operation holds_operation
  compile_operation-Means MatchOperator.regex c x made =
      elim (Bool-cases (libraries.regex_ok c.value c.case_sensitive)) [
        | inr bad ↦ absurd (let h = rw bad at made in cc h)
        | inl fine ↦
            let built : CompiledCondition = record { spec = c; cidr = none } in
            let h : some built ≡ some x = rw fine at made in
            let same : built ≡ x = cc h in
            (
              ap (λ (y : CompiledCondition). y.spec) (sym same),
              λ candidate.
                  ap
                    (λ (y : CompiledCondition).
                      libraries.partial_match y.spec.value y.spec.case_sensitive candidate)
                    (sym same),
            )
      ]
  compile_operation-Means MatchOperator.in_cidr c x made =
      let (spec, range) = compile_cidr_range c.field c x made in
      (spec, λ candidate. ap (λ r. in_range r (libraries.make_address candidate) true) range)
  compile_operation-Means MatchOperator.not_in_cidr c x made =
      let (spec, range) = compile_cidr_range c.field c x made in
      (spec, λ candidate. ap (λ r. in_range r (libraries.make_address candidate) false) range)
  compile_operation-Means MatchOperator.equal c x made = plain_Means c x made
  compile_operation-Means MatchOperator.not_equal c x made = plain_Means c x made
  compile_operation-Means MatchOperator.contains c x made = plain_Means c x made
  compile_operation-Means MatchOperator.not_contains c x made = plain_Means c x made
  compile_operation-Means MatchOperator.starts_with c x made = plain_Means c x made
  compile_operation-Means MatchOperator.ends_with c x made = plain_Means c x made

  compile_condition-Means :
      (c : AclConditionSpec) (x : CompiledCondition)
      → compile_condition libraries c ≡ some x
      → Means c.operation c x
  unfolding compile_condition
  compile_condition-Means c x made =
      elim (Bool-cases (is_empty c.value || ltb 4096 (length c.value))) [
        | inl bad ↦ absurd (let h = rw bad at made in cc h)
        | inr fine ↦ elim (Bool-cases (header_named c.field c.header_name)) [
          | inr bad ↦ absurd (let h = rw (fine, bad) at made in cc h)
          | inl named ↦ compile_operation-Means c.operation c x (rw (fine, named) at made)
        ]
      ]

  pub matches-holds :
      (request : RequestView) (client_ip host_name : Bytes) (c : AclConditionSpec)
      (x : CompiledCondition)
      → Means c.operation c x
      → match_condition libraries x
          (field_value request x.spec.field x.spec.header_name client_ip host_name)
        ≡ holds request client_ip host_name c
  unfolding match_condition holds
  matches-holds request client_ip host_name c x (spec, means) =
      let seen : AclConditionSpec → Bytes =
        λ s. field_value request s.field s.header_name client_ip host_name in
      ap (λ (s : AclConditionSpec). match_operation libraries s.operation x (seen s)) spec
      ∙ means (seen c)

  -- The conditions of a rule, one by one.
  abbrev pub AllMean : List AclConditionSpec → List CompiledCondition → Type 0
  AllMean [] [] = Unit
  AllMean (c ∷ cs) (x ∷ xs) = Means c.operation c x × AllMean cs xs
  AllMean [] (x ∷ xs) = ⊥
  AllMean (c ∷ cs) [] = ⊥

  pub compile_conditions-AllMean :
      (cs : List AclConditionSpec) (xs : List CompiledCondition)
      → compile_conditions libraries cs ≡ some xs
      → AllMean cs xs
  unfolding compile_conditions
  compile_conditions-AllMean [] xs made = let same : [] ≡ xs = cc made in subst (AllMean []) same tt
  compile_conditions-AllMean (c ∷ cs) xs made =
      let (y, first, g) = >>=_some (compile_condition libraries c) _ xs made in
      let (ys, rest, e) = >>=_some (compile_conditions libraries cs) _ xs g in
      let same : y ∷ ys ≡ xs = cc e in
      subst (AllMean (c ∷ cs)) same
        (compile_condition-Means c y first, compile_conditions-AllMean cs ys rest)
