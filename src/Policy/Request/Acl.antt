-- ===== src/Policy/Request/Acl.antt =====
-- src/policy/RequestPolicy.cpp: the conditions and the rules of access.
use model_lib.Base.Bytes.{Bytes, codes, starts_with}
use model_lib.Base.Bytes
use model_lib.Base.{
  ℕ, Bool, true, false, not, ◌||◌, List, [], ◌∷◌, Option, none, some, ltb, if◌then◌else◌, all,
}
use model_lib.Policy.Cidr.{Address, Range, cidr_contains}
use model_lib.Policy.Request.{
  AclField, ip, uri, host, method, user_agent, referer, header, MatchOperator, AclAction, allow,
  deny, redirect, return_status, AclConditionSpec, AclRuleSpec, PolicyDecision, RequestView,
  Libraries, CompiledCondition, CompiledAclRule,
}
use model_lib.Policy.Request.Text.{ascii_lower, ends_with_text, has_part}

unfoldable pub header_field : Option (Bytes → Bytes) → Bytes → Bytes
header_field none name = []
header_field (some value) name = value name

unfoldable pub field_value : RequestView → AclField → Bytes → Bytes → Bytes → Bytes
field_value request ip name client_ip host_name = client_ip
field_value request uri name client_ip host_name = request.target
field_value request host name client_ip host_name = host_name
field_value request method name client_ip host_name = request.method
field_value request user_agent name client_ip host_name = request.user_agent
field_value request referer name client_ip host_name = request.referer
field_value request header name client_ip host_name = header_field request.header_value name

-- A rule's CIDR operator has its range by construction; without one the source's dereference
-- would be undefined.
unfoldable pub in_range : Option Range → Option Address → Bool → Bool
in_range range none wanted = false
in_range none (some a) wanted = false
in_range (some range) (some a) wanted = if cidr_contains range a then wanted else not wanted

-- The operators on text.
unfoldable pub compare_text : MatchOperator → Bytes → Bytes → Bool
compare_text MatchOperator.equal value expected = Bytes.equal value expected
compare_text MatchOperator.not_equal value expected = not (Bytes.equal value expected)
compare_text MatchOperator.contains value expected = has_part expected value
compare_text MatchOperator.not_contains value expected = not (has_part expected value)
compare_text MatchOperator.starts_with value expected = starts_with expected value
compare_text MatchOperator.ends_with value expected = ends_with_text expected value
compare_text MatchOperator.regex value expected = false
compare_text MatchOperator.in_cidr value expected = false
compare_text MatchOperator.not_in_cidr value expected = false

unfoldable pub folded : Bool → Bytes → Bytes
folded case_sensitive text = if case_sensitive then text else ascii_lower text

unfoldable pub match_text : AclConditionSpec → Bytes → Bool
match_text spec candidate =
    compare_text spec.operation (folded spec.case_sensitive candidate)
      (folded spec.case_sensitive spec.value)

module _ (libraries : Libraries) where
  unfoldable pub match_operation : MatchOperator → CompiledCondition → Bytes → Bool
  match_operation MatchOperator.regex c candidate =
      libraries.partial_match c.spec.value c.spec.case_sensitive candidate
  match_operation MatchOperator.in_cidr c candidate =
      in_range c.cidr (libraries.make_address candidate) true
  match_operation MatchOperator.not_in_cidr c candidate =
      in_range c.cidr (libraries.make_address candidate) false
  match_operation operation c candidate = match_text c.spec candidate

  unfoldable pub match_condition : CompiledCondition → Bytes → Bool
  match_condition c candidate = match_operation c.spec.operation c candidate

  unfoldable pub rule_matches : RequestView → Bytes → Bytes → CompiledAclRule → Bool
  rule_matches request client_ip host_name rule =
      all
        (λ (c : CompiledCondition).
          match_condition c
            (field_value request c.spec.field c.spec.header_name client_ip host_name))
        rule.conditions

-- What a stage of the evaluation says: go on, a decision, or the exception of `checked_status`.
pub data Verdict : Type 0 where
  pass throws : Verdict
  decided : PolicyDecision → Verdict

unfoldable pub with_status : ℕ → PolicyDecision → Verdict
with_status status decision = if ltb status 300 || ltb 599 status then throws else decided decision

unfoldable pub act : AclAction → AclRuleSpec → Verdict
act allow rule = pass
act redirect rule = with_status rule.status (record {
  status = rule.status;
  body = [];
  location = rule.redirect_location;
  retry_after_seconds = 0;
})
act deny rule = with_status rule.status (record {
  status = rule.status;
  body = codes "Request denied by ACL";
  location = [];
  retry_after_seconds = 0;
})
act return_status rule = with_status rule.status (record {
  status = rule.status;
  body = codes "Request blocked by ACL";
  location = [];
  retry_after_seconds = 0;
})

-- The first rule that matches decides.
unfoldable pub evaluate_acl :
    Libraries → RequestView → Bytes → Bytes → List CompiledAclRule → Verdict
evaluate_acl libraries request client_ip host_name [] = pass
evaluate_acl libraries request client_ip host_name (rule ∷ rules) =
    if rule_matches libraries request client_ip host_name rule
    then act rule.spec.action rule.spec
    else evaluate_acl libraries request client_ip host_name rules
