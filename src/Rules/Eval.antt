-- ===== src/Rules/Eval.antt =====
-- lib/mb-rule/src/data_handle.rs: whether a flow matches an expression, and which action it gets.
use meshbus_rs.Prelude.{
  ℕ, suc, ◌+◌, ◌==◌, leb, Bool, true, false, not, ◌&&◌, ◌||◌, if◌then◌else◌, any, is_some,
}
use meshbus_rs.Prelude.{
  Text, text_eq, text_eq_inst, strip_prefix, strip_suffix, List, [], ◌∷◌, map, contains, nat_eq,
  Option, none, some, lookup,
}
use meshbus_rs.Rules.{
  Action, RuleNetwork, RuleSessionShape, RuleTrafficClass, RuleTransformKind, RuleSocks5Command,
  IpAddr, IpNet, RuleCtx, Predicate, MatchExpr, Matches, Rule, RuleDecision, RuleChain,
  RulesetFormat, RulesetField, RuleLib,
}

-- `==` of the enumerations: the place of each constructor.
network_code : RuleNetwork → ℕ
network_code RuleNetwork.tcp = 0
network_code RuleNetwork.udp = 1

shape_code : RuleSessionShape → ℕ
shape_code RuleSessionShape.stream = 0
shape_code RuleSessionShape.datagram = 1

class_code : RuleTrafficClass → ℕ
class_code RuleTrafficClass.interactive = 0
class_code RuleTrafficClass.bulk = 1
class_code RuleTrafficClass.control = 2

kind_code : RuleTransformKind → ℕ
kind_code RuleTransformKind.fragment = 0
kind_code RuleTransformKind.compress = 1
kind_code RuleTransformKind.encrypt = 2
kind_code RuleTransformKind.checksum = 3
kind_code RuleTransformKind.parity = 4

socks5_code : RuleSocks5Command → ℕ
socks5_code RuleSocks5Command.connect = 0
socks5_code RuleSocks5Command.bind = 1
socks5_code RuleSocks5Command.udp_associate = 2

ip_addr_eq : IpAddr → IpAddr → Bool
ip_addr_eq (IpAddr.v4 a) (IpAddr.v4 b) = text_eq a b
ip_addr_eq (IpAddr.v6 a) (IpAddr.v6 b) = text_eq a b
ip_addr_eq (IpAddr.v4 a) (IpAddr.v6 b) = false
ip_addr_eq (IpAddr.v6 a) (IpAddr.v4 b) = false

abbrev pub is_some_and : {A : Type 0} → (A → Bool) → Option A → Bool
is_some_and f none = false
is_some_and f (some a) = f a

-- `ends_with`, `contains` and `eq_ignore_ascii_case` of texts.
ends_with : Text → Text → Bool
ends_with s suffix = is_some (strip_suffix suffix s)

contains_text : Text → Text → Bool
contains_text [] part = text_eq part []
contains_text (c ∷ cs) part = is_some (strip_prefix part (c ∷ cs)) || contains_text cs part

to_ascii_lowercase : ℕ → ℕ
to_ascii_lowercase c = if leb b'A' c && leb c b'Z' then c + 32 else c

eq_ignore_ascii_case : Text → Text → Bool
unfolding to_ascii_lowercase
eq_ignore_ascii_case a b = text_eq (map to_ascii_lowercase a) (map to_ascii_lowercase b)

pub record ResolvedRuleset : Type 0 where
  pub field : Option RulesetField
  pub format : RulesetFormat
  pub entries : List Text
  pub cidrs : List IpNet

pub record RuleSetRegistry : Type 0 where
  pub sets : List (Text × ResolvedRuleset)

abbrev pub empty_registry : RuleSetRegistry
empty_registry = record { sets = [] }

pick_ip : RuleCtx → Option RulesetField → Option IpAddr
pick_ip ctx (some RulesetField.src_ip) = ctx.src_ip
pick_ip ctx (some RulesetField.dst_ip) = ctx.dst_ip
pick_ip ctx (some RulesetField.hostname) = none
pick_ip ctx none = none

eval_resolved : RuleLib → RuleCtx → ResolvedRuleset → RulesetFormat → Bool
unfolding ends_with pick_ip
eval_resolved lib ctx rs RulesetFormat.domain_suffix =
    is_some_and (λ h. any (λ s. ends_with h s) rs.entries) ctx.hostname
eval_resolved lib ctx rs RulesetFormat.ip_cidr =
    is_some_and (λ ip. any (λ n. lib.net_contains n ip) rs.cidrs) (pick_ip ctx rs.field)
eval_resolved lib ctx rs RulesetFormat.classical = false

eval_ruleset : RuleLib → Text → RuleCtx → RuleSetRegistry → Bool
unfolding eval_resolved
eval_ruleset lib name ctx reg =
    is_some_and (λ rs. eval_resolved lib ctx rs rs.format) (lookup name reg.sets)

pub eval_predicate : RuleLib → Predicate → RuleCtx → RuleSetRegistry → Bool
unfolding eval_ruleset ends_with contains_text eq_ignore_ascii_case ip_addr_eq network_code
    shape_code class_code kind_code socks5_code
eval_predicate lib (Predicate.src_cidr n) ctx reg =
    is_some_and (λ ip. lib.net_contains n ip) ctx.src_ip
eval_predicate lib (Predicate.dst_cidr n) ctx reg =
    is_some_and (λ ip. lib.net_contains n ip) ctx.dst_ip
eval_predicate lib (Predicate.src_ip_eq ip) ctx reg = is_some_and (ip_addr_eq ip) ctx.src_ip
eval_predicate lib (Predicate.dst_ip_eq ip) ctx reg = is_some_and (ip_addr_eq ip) ctx.dst_ip
eval_predicate lib (Predicate.dst_port_eq p) ctx reg = is_some_and (λ q. q == p) ctx.dst_port
eval_predicate lib (Predicate.dst_port_range a b) ctx reg =
    is_some_and (λ p. leb a p && leb p b) ctx.dst_port
eval_predicate lib (Predicate.network_eq n) ctx reg =
    is_some_and (λ m. network_code m == network_code n) ctx.network
eval_predicate lib (Predicate.session_shape_eq s) ctx reg =
    is_some_and (λ m. shape_code m == shape_code s) ctx.session_shape
eval_predicate lib (Predicate.operation_eq s) ctx reg = is_some_and (text_eq s) ctx.operation
eval_predicate lib (Predicate.socks5_command_eq c) ctx reg =
    is_some_and (λ m. socks5_code m == socks5_code c) ctx.socks5_command
eval_predicate lib (Predicate.hostname_exact s) ctx reg = is_some_and (text_eq s) ctx.hostname
eval_predicate lib (Predicate.hostname_suffix s) ctx reg =
    is_some_and (λ h. ends_with h s) ctx.hostname
eval_predicate lib (Predicate.hostname_keyword s) ctx reg =
    is_some_and (λ h. contains_text h s) ctx.hostname
eval_predicate lib (Predicate.hostname_regex r) ctx reg =
    is_some_and (λ h. lib.is_match r h) ctx.hostname
eval_predicate lib (Predicate.fragment_group_exact s) ctx reg =
    is_some_and (text_eq s) ctx.fragment_group
eval_predicate lib (Predicate.transform_kind_eq k) ctx reg =
    is_some_and (λ m. kind_code m == kind_code k) ctx.transform_kind
eval_predicate lib (Predicate.traffic_class_eq c) ctx reg =
    is_some_and (λ m. class_code m == class_code c) ctx.traffic_class
eval_predicate lib (Predicate.ruleset_member name) ctx reg = eval_ruleset lib name ctx reg
eval_predicate lib (Predicate.consumer s) ctx reg = is_some_and (text_eq s) ctx.consumer
eval_predicate lib (Predicate.dns_qtype s) ctx reg =
    is_some_and (λ q. eq_ignore_ascii_case q s) ctx.dns_qtype
eval_predicate lib (Predicate.authenticated_user_eq s) ctx reg =
    is_some_and (text_eq s) ctx.authenticated_user
eval_predicate lib Predicate.authenticated_user_any ctx reg = is_some ctx.authenticated_user
eval_predicate lib (Predicate.dst_geo_eq s) ctx reg = is_some_and (text_eq s) ctx.dst_geo
eval_predicate lib (Predicate.asn_eq n) ctx reg = is_some_and (λ a. a == n) ctx.asn
eval_predicate lib (Predicate.asn_any s) ctx reg = is_some_and (λ a. contains a s) ctx.asn
eval_predicate lib (Predicate.geosite_tag t) ctx reg = contains t ctx.geosite_tags

unfoldable mutual
  unfolding eval_predicate

  pub eval_match : RuleLib → MatchExpr → RuleCtx → RuleSetRegistry → Bool
  eval_match lib (MatchExpr.term p) ctx reg = eval_predicate lib p ctx reg
  eval_match lib (MatchExpr.predicate p) ctx reg = eval_predicate lib p ctx reg
  eval_match lib (MatchExpr.all_of xs) ctx reg = eval_all lib xs ctx reg
  eval_match lib (MatchExpr.any_of xs) ctx reg = eval_any lib xs ctx reg
  eval_match lib (MatchExpr.not_of x) ctx reg = not (eval_match lib x ctx reg)

  pub eval_all : RuleLib → Matches → RuleCtx → RuleSetRegistry → Bool
  eval_all lib Matches.no_match ctx reg = true
  eval_all lib (Matches.and_match x xs) ctx reg =
      eval_match lib x ctx reg && eval_all lib xs ctx reg

  pub eval_any : RuleLib → Matches → RuleCtx → RuleSetRegistry → Bool
  eval_any lib Matches.no_match ctx reg = false
  eval_any lib (Matches.and_match x xs) ctx reg =
      eval_match lib x ctx reg || eval_any lib xs ctx reg

abbrev pub decision_of : Rule → ℕ → RuleDecision
decision_of rule idx = record {
  action = rule.action;
  trace = record { matched = true; rule_index = some idx; rule_id = rule.id; default_used = false };
}

abbrev pub default_decision : Action → RuleDecision
default_decision default = record {
  action = default;
  trace = record { matched = false; rule_index = none; rule_id = none; default_used = true };
}

unfoldable pub evaluate_from :
    RuleLib → ℕ → List Rule → Action → RuleCtx → RuleSetRegistry → RuleDecision
evaluate_from lib idx [] default ctx reg = default_decision default
evaluate_from lib idx (rule ∷ rules) default ctx reg =
    let later = evaluate_from lib (suc idx) rules default ctx reg in
    if eval_match lib rule.when ctx reg then decision_of rule idx else later

unfoldable pub evaluate_with_trace : RuleLib → RuleChain → RuleCtx → RuleSetRegistry → RuleDecision
evaluate_with_trace lib chain ctx reg = evaluate_from lib 0 chain.rules chain.default ctx reg
