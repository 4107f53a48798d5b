-- ===== src/Policy/Request.antt =====
-- src/policy/RequestPolicy.{hpp,cpp}: access rules, the rate limit, redirects and hotlink
-- protection. This file has the data; RE2 and `make_address` of Boost are parameters.
pub mod Text
pub mod Rate
pub mod Acl
pub mod Redirects
pub mod Hotlink
pub mod Compile
pub mod Evaluate
pub mod Answers
pub mod Order
pub mod Rulings
pub mod Statuses
pub mod Tokens
mod Tests
use model_lib.Base.Bytes.{Bytes}
use model_lib.Base.{ℕ, Bool, List, Option}
use model_lib.Policy.Cidr.{Address, Range}

pub data AclField : Type 0 where
  ip uri host method user_agent referer header : AclField

pub data MatchOperator : Type 0 where
  equal not_equal contains not_contains starts_with ends_with regex in_cidr not_in_cidr :
      MatchOperator

pub data AclAction : Type 0 where
  allow deny redirect return_status : AclAction

pub record AclConditionSpec : Type 0 where
  pub field : AclField
  pub operation : MatchOperator
  pub value : Bytes
  pub header_name : Bytes
  pub case_sensitive : Bool

pub record AclRuleSpec : Type 0 where
  pub name : Bytes
  pub enabled : Bool
  pub conditions : List AclConditionSpec
  pub action : AclAction
  pub status : ℕ
  pub redirect_location : Bytes

pub record RateLimitSpec : Type 0 where
  pub enabled : Bool
  pub window_seconds : ℕ
  pub max_requests : ℕ
  pub ban_seconds : ℕ

pub record HotlinkSpec : Type 0 where
  pub enabled : Bool
  pub protected_extensions : List Bytes
  pub allowed_hosts : List Bytes
  pub allow_empty_referer : Bool
  pub redirect_location : Bytes

pub data RedirectMatch : Type 0 where
  exact prefix : RedirectMatch

pub record RedirectRuleSpec : Type 0 where
  pub name : Bytes
  pub enabled : Bool
  pub source_host : Bytes
  pub source_path : Bytes
  pub match : RedirectMatch
  pub destination : Bytes
  pub status : ℕ
  pub preserve_path : Bool
  pub preserve_query : Bool

pub record SitePolicySpec : Type 0 where
  pub force_https : Bool
  pub https_port : ℕ
  pub acl_rules : List AclRuleSpec
  pub rate_limit : RateLimitSpec
  pub hotlink : HotlinkSpec
  pub redirects : List RedirectRuleSpec

pub record PolicyDecision : Type 0 where
  pub status : ℕ
  pub body : Bytes
  pub location : Bytes
  pub retry_after_seconds : ℕ

-- `header_value` is a `std::function`, which may be empty.
pub record RequestView : Type 0 where
  pub method : Bytes
  pub target : Bytes
  pub user_agent : Bytes
  pub referer : Bytes
  pub header_value : Option (Bytes → Bytes)

-- Boost and RE2: the address that a text denotes; whether a pattern compiles, given whether case
-- matters; and whether it matches a part of a text.
pub record Libraries : Type 0 where
  pub make_address : Bytes → Option Address
  pub regex_ok : Bytes → Bool → Bool
  pub partial_match : Bytes → Bool → Bytes → Bool

-- The regular expression of a condition is its value and its case, and so has no field.
pub record CompiledCondition : Type 0 where
  pub spec : AclConditionSpec
  pub cidr : Option Range

pub record CompiledAclRule : Type 0 where
  pub spec : AclRuleSpec
  pub conditions : List CompiledCondition
