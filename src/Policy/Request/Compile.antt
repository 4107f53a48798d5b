-- ===== src/Policy/Request/Compile.antt =====
-- src/policy/RequestPolicy.cpp: the constructor of `RequestPolicy`. `none` is an exception.
use model_lib.Base.Bytes.{Bytes, cut, is_alnum, is_empty, starts_in, contains}
use model_lib.Base.{
  ℕ, Bool, true, false, not, ◌&&◌, ◌||◌, List, [], ◌∷◌, ◌++◌, Option, none, some, ltb, ◌==◌,
  if◌then◌else◌, ◌>>=◌, length, all,
}
use model_lib.Policy.Cidr.{Address, Range, from_chars, maximum_prefix, bounded_prefix}
use model_lib.Policy.Request.{
  AclField, ip, header, MatchOperator, regex, in_cidr, not_in_cidr, AclAction, allow, deny,
  redirect, return_status, AclConditionSpec, AclRuleSpec, HotlinkSpec, RedirectRuleSpec,
  SitePolicySpec, Libraries, CompiledCondition, CompiledAclRule,
}
use model_lib.Policy.Request.Text.{
  ascii_lower, normalized_host_pattern, valid_redirect_status, valid_redirect_destination,
  valid_header_name,
}
use model_lib.Policy.Request.Rate.{rate_limit_valid}

-- `Impl`, less the rate limiter's state. Sets are lists.
pub record CompiledPolicy : Type 0 where
  pub spec : SitePolicySpec
  pub pre_rate_limit_acl_rules : List CompiledAclRule
  pub acl_rules : List CompiledAclRule
  pub redirects : List RedirectRuleSpec
  pub hotlink_extensions : List Bytes
  pub hotlink_hosts : List Bytes

-- A rule that is not enabled is passed over.
unfoldable pub keep_enabled : {A : Type 0} → Bool → Option A → Option (List A) → Option (List A)
keep_enabled false rule rest = rest
keep_enabled true rule rest = do x ← rule; xs ← rest; some (x ∷ xs)

unfoldable pub host_patterns : List Bytes → Option (List Bytes)
host_patterns [] = some []
host_patterns (d ∷ ds) = do p ← normalized_host_pattern d; ps ← host_patterns ds; some (p ∷ ps)

unfoldable pub without_dot : Bytes → Bytes
without_dot [] = []
without_dot (c ∷ s) = if c == b'.' then s else c ∷ s

unfoldable pub checked_extension : Bytes → Option Bytes
checked_extension e =
    if is_empty e || ltb 16 (length e) || not (all is_alnum e) then none else some e

unfoldable pub extensions : List Bytes → Option (List Bytes)
extensions [] = some []
extensions (e ∷ es) = do
  x ← checked_extension (ascii_lower (without_dot e))
  xs ← extensions es
  some (x ∷ xs)

unfoldable pub hotlink_valid : HotlinkSpec → List Bytes → Bool
hotlink_valid spec checked =
    not (spec.enabled && length checked == 0)
    && (is_empty spec.redirect_location || valid_redirect_destination spec.redirect_location)

unfoldable pub action_valid : AclAction → AclRuleSpec → Bool
action_valid allow rule = true
action_valid redirect rule =
    valid_redirect_status rule.status && valid_redirect_destination rule.redirect_location
action_valid deny rule = rule.status == 403 || rule.status == 404 || rule.status == 429
action_valid return_status rule = rule.status == 403 || rule.status == 404 || rule.status == 429

unfoldable pub header_named : AclField → Bytes → Bool
header_named header name = valid_header_name name
header_named _ name = true

module _ (libraries : Libraries) where
  -- The range of an address and the text of its prefix.
  unfoldable pub make_range : Option Address → Bytes → Option Range
  make_range none prefix = none
  make_range (some a) prefix = do
    n ← bounded_prefix (maximum_prefix a) (from_chars prefix)
    some (record { network = a; prefix = n })

  unfoldable pub split_range : Option (Bytes × Bytes) → Option Range
  split_range none = none
  split_range (some (address, prefix)) =
      if is_empty address || is_empty prefix || contains b'/' prefix
      then none
      else make_range (libraries.make_address address) prefix

  unfoldable pub parse_acl_cidr : Bytes → Option Range
  parse_acl_cidr text = split_range (cut b'/' text)

  unfoldable pub compile_cidr : AclField → AclConditionSpec → Option CompiledCondition
  compile_cidr ip c = do
    range ← parse_acl_cidr c.value
    some (record { spec = c; cidr = some range })
  compile_cidr _ c = none

  unfoldable pub compile_operation : MatchOperator → AclConditionSpec → Option CompiledCondition
  compile_operation regex c =
      if libraries.regex_ok c.value c.case_sensitive
      then some (record { spec = c; cidr = none })
      else none
  compile_operation in_cidr c = compile_cidr c.field c
  compile_operation not_in_cidr c = compile_cidr c.field c
  compile_operation _ c = some (record { spec = c; cidr = none })

  unfoldable pub compile_condition : AclConditionSpec → Option CompiledCondition
  compile_condition c =
      if is_empty c.value || ltb 4096 (length c.value)
      then none
      else (if header_named c.field c.header_name then compile_operation c.operation c else none)

  unfoldable pub compile_conditions : List AclConditionSpec → Option (List CompiledCondition)
  compile_conditions [] = some []
  compile_conditions (c ∷ cs) = do
    x ← compile_condition c
    xs ← compile_conditions cs
    some (x ∷ xs)

  unfoldable pub compile_rule : AclRuleSpec → Option CompiledAclRule
  compile_rule rule =
      if is_empty rule.name
        || ltb 128 (length rule.name)
        || length rule.conditions == 0
        || ltb 8 (length rule.conditions)
        || not (action_valid rule.action rule)
      then none
      else do
        conditions ← compile_conditions rule.conditions
        some (record { spec = rule; conditions = conditions })

  unfoldable pub compile_rules : List AclRuleSpec → Option (List CompiledAclRule)
  compile_rules [] = some []
  compile_rules (r ∷ rs) = keep_enabled r.enabled (compile_rule r) (compile_rules rs)

-- `is_pre_rate_limit_ip_deny`.
unfoldable pub denies : AclAction → Bool
denies deny = true
denies _ = false

unfoldable pub of_ip : AclField → Bool
of_ip ip = true
of_ip _ = false

unfoldable pub selects_address : MatchOperator → Bool
selects_address MatchOperator.equal = true
selects_address in_cidr = true
selects_address not_in_cidr = true
selects_address _ = false

unfoldable pub is_pre_rate_limit_ip_deny : CompiledAclRule → Bool
is_pre_rate_limit_ip_deny rule =
    denies rule.spec.action
    && all (λ (c : CompiledCondition). of_ip c.spec.field && selects_address c.spec.operation)
        rule.conditions

unfoldable pub rules_where : Bool → List CompiledAclRule → List CompiledAclRule
rules_where pre [] = []
rules_where pre (r ∷ rs) =
    let rest = rules_where pre rs in
    if is_pre_rate_limit_ip_deny r
    then (if pre then r ∷ rest else rest)
    else (if pre then rest else r ∷ rest)

unfoldable pub redirect_valid : RedirectRuleSpec → Bool
redirect_valid rule = not (
    is_empty rule.name
    || ltb 128 (length rule.name)
    || is_empty rule.source_path
    || not (starts_in b'/' rule.source_path)
    || ltb 8192 (length rule.source_path)
    || not (valid_redirect_status rule.status)
    || not (valid_redirect_destination rule.destination))

unfoldable pub normalize_source : RedirectRuleSpec → Option RedirectRuleSpec
normalize_source rule = if is_empty rule.source_host then some rule else do
  pattern ← normalized_host_pattern rule.source_host
  some (record rule { source_host = pattern })

unfoldable pub compile_redirect : RedirectRuleSpec → Option RedirectRuleSpec
compile_redirect r = if redirect_valid r then normalize_source r else none

unfoldable pub compile_redirects : List RedirectRuleSpec → Option (List RedirectRuleSpec)
compile_redirects [] = some []
compile_redirects (r ∷ rs) = keep_enabled r.enabled (compile_redirect r) (compile_redirects rs)

unfoldable pub at_most : {A : Type 0} → ℕ → List A → Option (Unit {0})
at_most limit xs = if ltb limit (length xs) then none else some tt

unfoldable pub require : Bool → Option (Unit {0})
require test = if test then some tt else none

unfoldable pub compile : Libraries → SitePolicySpec → List Bytes → Option CompiledPolicy
compile libraries spec domains = do
  limited ← require (rate_limit_valid spec.rate_limit)
  own ← host_patterns domains
  allowed ← host_patterns spec.hotlink.allowed_hosts
  endings ← extensions spec.hotlink.protected_extensions
  checked ← require (hotlink_valid spec.hotlink endings)
  few_rules ← at_most 200 spec.acl_rules
  rules ← compile_rules libraries spec.acl_rules
  few_redirects ← at_most 100 spec.redirects
  redirects ← compile_redirects spec.redirects
  some (record {
    spec = spec;
    pre_rate_limit_acl_rules = rules_where true rules;
    acl_rules = rules_where false rules;
    redirects = redirects;
    hotlink_extensions = endings;
    hotlink_hosts = own ++ allowed;
  })
