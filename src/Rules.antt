-- ===== src/Rules.antt =====
-- lib/mb-rule/src/types.rs: the rule chain, what a rule may ask of a flow, and what it decides.
-- `IpNet` and the regular expressions are of other packages: what they match is a parameter.
use meshbus_rs.Prelude.{
  ℕ, ◌+◌, ◌*◌, ◌≡◌, ◌==◌, Bool, Text, Bytes, List, Option, none, Result, length, text_eq, true,
  false, [], ◌&&◌,
}
pub mod Eval
pub mod FirstMatch
pub mod Validate
pub mod Effects
pub mod Load
pub mod Loaded
pub mod Tests

pub data RuleNetwork : Type 0 where
  tcp udp : RuleNetwork

pub data RuleSessionShape : Type 0 where
  stream datagram : RuleSessionShape

pub data RuleTrafficClass : Type 0 where
  interactive bulk control : RuleTrafficClass

pub data RuleTransformKind : Type 0 where
  fragment compress encrypt checksum parity : RuleTransformKind

pub data RuleSocks5Command : Type 0 where
  connect bind udp_associate : RuleSocks5Command

pub data RuleScheduleHint : Type 0 where
  automatic : RuleScheduleHint
  fan_out : ℕ → RuleScheduleHint

-- `serde_json::Value`: which kind of value it is, and its text.
pub data JsonValue : Type 0 where
  null : JsonValue
  bool_value number string array object : Text → JsonValue

pub record RuleTransformDescriptor : Type 0 where
  pub kind : RuleTransformKind
  pub params : JsonValue

pub data IpAddr : Type 0 where
  v4 v6 : Bytes → IpAddr

pub record IpNet : Type 0 where
  pub addr : IpAddr
  pub prefix_len : ℕ

pub record RuleCtx : Type 0 where
  pub src_ip : Option IpAddr
  pub dst_ip : Option IpAddr
  pub dst_port : Option ℕ
  pub network : Option RuleNetwork
  pub flow_id : Option Text
  pub session_shape : Option RuleSessionShape
  pub operation : Option Text
  pub schedule_hint : Option RuleScheduleHint
  pub traffic_class : Option RuleTrafficClass
  pub transform_kind : Option RuleTransformKind
  pub fragment_group : Option Text
  pub hostname : Option Text
  pub socks5_command : Option RuleSocks5Command
  pub consumer : Option Text
  pub dns_qtype : Option Text
  pub authenticated_user : Option Text
  pub dst_geo : Option Text
  pub asn : Option ℕ
  pub geosite_tags : List Text

abbrev pub empty_ctx : RuleCtx
empty_ctx = record {
  src_ip = none;
  dst_ip = none;
  dst_port = none;
  network = none;
  flow_id = none;
  session_shape = none;
  operation = none;
  schedule_hint = none;
  traffic_class = none;
  transform_kind = none;
  fragment_group = none;
  hostname = none;
  socks5_command = none;
  consumer = none;
  dns_qtype = none;
  authenticated_user = none;
  dst_geo = none;
  asn = none;
  geosite_tags = [];
}

-- A regular expression is its text.
pub data Predicate : Type 0 where
  src_cidr dst_cidr : IpNet → Predicate
  src_ip_eq dst_ip_eq : IpAddr → Predicate
  dst_port_eq asn_eq : ℕ → Predicate
  dst_port_range : ℕ → ℕ → Predicate
  network_eq : RuleNetwork → Predicate
  session_shape_eq : RuleSessionShape → Predicate
  socks5_command_eq : RuleSocks5Command → Predicate
  transform_kind_eq : RuleTransformKind → Predicate
  traffic_class_eq : RuleTrafficClass → Predicate
  operation_eq hostname_exact hostname_suffix hostname_keyword hostname_regex : Text → Predicate
  fragment_group_exact ruleset_member consumer dns_qtype : Text → Predicate
  authenticated_user_eq dst_geo_eq geosite_tag : Text → Predicate
  authenticated_user_any : Predicate
  asn_any : List ℕ → Predicate

mutual
  pub data MatchExpr : Type 0 where
    term predicate : Predicate → MatchExpr
    all_of any_of : Matches → MatchExpr
    not_of : MatchExpr → MatchExpr

  pub data Matches : Type 0 where
    no_match : Matches
    and_match : MatchExpr → Matches → Matches

-- `set_cost_bias` carries the size of the bias and whether it is negative.
mutual
  pub data Action : Type 0 where
    allow deny : Action
    set_route_group set_resolver_pool : Text → Action
    set_schedule_hint : RuleScheduleHint → Action
    set_transform : RuleTransformDescriptor → Action
    compose : Actions → Action
    set_cost_bias : Bool → ℕ → Action

  pub data Actions : Type 0 where
    no_action : Actions
    and_action : Action → Actions → Actions

pub record Rule : Type 0 where
  pub id : Option Text
  pub when : MatchExpr
  pub action : Action

pub record MatchTrace : Type 0 where
  pub matched : Bool
  pub rule_index : Option ℕ
  pub rule_id : Option Text
  pub default_used : Bool

pub record RuleDecision : Type 0 where
  pub action : Action
  pub trace : MatchTrace

pub record RuleChain : Type 0 where
  pub rules : List Rule
  pub default : Action

pub data RulesetFormat : Type 0 where
  domain_suffix ip_cidr classical : RulesetFormat

pub data RulesetField : Type 0 where
  hostname src_ip dst_ip : RulesetField

pub data RulesetSource : Type 0 where
  inline : List Text → RulesetSource
  local : Text → RulesetSource

pub record Ruleset : Type 0 where
  pub name : Text
  pub format : RulesetFormat
  pub field : Option RulesetField
  pub source : RulesetSource

-- What the packages `ipnet` and `regex` do: membership in a network, and a match in a text.
pub record RuleLib : Type 0 where
  pub net_contains : IpNet → IpAddr → Bool
  pub is_match : Text → Text → Bool
