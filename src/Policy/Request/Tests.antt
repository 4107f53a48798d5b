-- ===== src/Policy/Request/Tests.antt =====
-- Runs of a request policy, and its theorems at a concrete one. Only one address is known, and
-- `double` is ℕ.
use model_lib.Base.Bytes.{codes, equal, cut, strip, decimal}
use model_lib.Base.Map.{lookup}
use model_lib.Base.{
  ℕ, ◌+◌, ◌-◌, ◌*◌, ◌/◌, ◌≡◌, refl, true, false, [], ◌∷◌, some, none, arith, ltb, if◌then◌else◌,
}
use model_lib.Policy.Cidr.{
  v4, from_chars, mask32, addresses_match, cidr_contains, maximum_prefix, bounded_prefix,
}
use model_lib.Policy.Request.{
  AclRuleSpec, RedirectRuleSpec, SitePolicySpec, RequestView, Libraries, ip, in_cidr, deny, prefix,
}
use model_lib.Policy.Request.Text.{valid_redirect_status, valid_redirect_destination}
use model_lib.Policy.Request.Rate.{Doubles, RateLimiter, no_entry, rate_limit_valid, check}
use model_lib.Policy.Request.Acl.{evaluate_acl}
use model_lib.Policy.Request.Compile.{
  CompiledPolicy, compile, require, at_most, host_patterns, extensions, hotlink_valid,
  compile_rules, keep_enabled, compile_rule, action_valid, compile_conditions, compile_condition,
  header_named, compile_operation, compile_cidr, parse_acl_cidr, split_range, make_range, denies,
  of_ip, selects_address, is_pre_rate_limit_ip_deny, rules_where, compile_redirects,
  compile_redirect, redirect_valid, normalize_source,
}
use model_lib.Policy.Request.Evaluate.{evaluate}
use model_lib.Policy.Request.Answers.{Ends, evaluate-Answers}
use model_lib.Policy.Request.Order.{ruling}
use model_lib.Policy.Request.Rulings.{compile-ruling}
use model_lib.Policy.Request.Tokens.{Fit, check-Fit}

abbrev one_network : Libraries
one_network = record {
  make_address = λ s.
      if equal s (codes "10.0.0.0")
      then some (v4 0x0A000000)
      else (if equal s (codes "10.1.2.3") then some (v4 0x0A010203) else none);
  regex_ok = λ _ _. true;
  partial_match = λ _ _ _. false;
}

abbrev whole_numbers : Doubles ℕ
whole_numbers = record {
  from_nat = λ n. n;
  elapsed = λ now updated. now - updated;
  add = λ a b. a + b;
  subtract = λ a b. a - b;
  multiply = λ a b. a * b;
  divide = λ a b. a / b;
  less = ltb;
  seconds_up = λ n. n;
}

abbrev no_intranet : AclRuleSpec
no_intranet = record {
  name = codes "no intranet";
  enabled = true;
  conditions =
      record {
        field = ip;
        operation = in_cidr;
        value = codes "10.0.0.0/8";
        header_name = [];
        case_sensitive = false;
      }
      ∷ [];
  action = deny;
  status = 403;
  redirect_location = [];
}

abbrev moved : RedirectRuleSpec
moved = record {
  name = codes "moved";
  enabled = true;
  source_host = [];
  source_path = codes "/old/";
  match = prefix;
  destination = codes "/new/";
  status = 301;
  preserve_path = true;
  preserve_query = true;
}

abbrev careful : SitePolicySpec
careful = record {
  force_https = false;
  https_port = 443;
  acl_rules = no_intranet ∷ [];
  rate_limit = record { enabled = true; window_seconds = 10; max_requests = 20; ban_seconds = 60 };
  hotlink = record {
    enabled = false;
    protected_extensions = [];
    allowed_hosts = [];
    allow_empty_referer = true;
    redirect_location = [];
  };
  redirects = moved ∷ [];
}

abbrev careful_policy : CompiledPolicy
careful_policy = record {
  spec = careful;
  pre_rate_limit_acl_rules =
      record {
        spec = no_intranet;
        conditions =
            record {
              spec = record {
                field = ip;
                operation = in_cidr;
                value = codes "10.0.0.0/8";
                header_name = [];
                case_sensitive = false;
              };
              cidr = some (record { network = v4 0x0A000000; prefix = 8 });
            }
            ∷ [];
      }
      ∷ [];
  acl_rules = [];
  redirects = moved ∷ [];
  hotlink_extensions = [];
  hotlink_hosts = [];
}

compiled : compile one_network careful [] ≡ some careful_policy
unfolding compile require at_most rate_limit_valid host_patterns extensions hotlink_valid
    compile_rules keep_enabled compile_rule action_valid compile_conditions compile_condition
    header_named compile_operation compile_cidr parse_acl_cidr split_range make_range from_chars
    bounded_prefix maximum_prefix cut decimal equal denies of_ip selects_address
    is_pre_rate_limit_ip_deny rules_where compile_redirects compile_redirect redirect_valid
    normalize_source valid_redirect_status valid_redirect_destination strip
compiled = refl

abbrev old_page : RequestView
old_page = record {
  method = codes "GET";
  target = codes "/old/page?q=1";
  user_agent = [];
  referer = [];
  header_value = none;
}

abbrev idle : RateLimiter ℕ
idle = record { entries = []; lru = []; request_count = 0 }

in_network : cidr_contains (record { network = v4 0x0A000000; prefix = 8 }) (v4 0x0A010203) ≡ true
unfolding cidr_contains addresses_match mask32
in_network = refl

out_of_network :
    cidr_contains (record { network = v4 0x0A000000; prefix = 8 }) (v4 0x0B010203) ≡ false
unfolding cidr_contains addresses_match mask32
out_of_network = refl

idle-Fit : Fit idle
unfolding lookup
idle-Fit = (record { distinct = tt; listed = λ k. refl }, omega arith)

evaluate-Answers_example :
    Ends no_entry
      (evaluate one_network whole_numbers careful_policy no_entry 5 old_page
        (codes "10.1.2.3")
        (codes "a.b")
        (codes "http")
        idle).1
evaluate-Answers_example =
    evaluate-Answers one_network whole_numbers careful [] careful_policy no_entry 5 old_page
      (codes "10.1.2.3") (codes "a.b") (codes "http") idle compiled

compile-ruling_example :
    (evaluate_acl one_network old_page
        (codes "10.1.2.3")
        (codes "a.b")
        careful_policy.pre_rate_limit_acl_rules
      ≡ ruling one_network old_page (codes "10.1.2.3") (codes "a.b") true careful.acl_rules)
    × (evaluate_acl one_network old_page (codes "10.1.2.3") (codes "a.b") careful_policy.acl_rules
        ≡ ruling one_network old_page (codes "10.1.2.3") (codes "a.b") false careful.acl_rules)
compile-ruling_example =
    compile-ruling one_network careful [] careful_policy old_page (codes "10.1.2.3") (codes "a.b")
      compiled

check-Fit_example :
    Fit (check whole_numbers careful.rate_limit no_entry 5 (codes "10.1.2.3") idle).0
check-Fit_example =
    check-Fit whole_numbers careful.rate_limit no_entry 5 (codes "10.1.2.3") idle idle-Fit
