-- ===== src/Rules/Validate.antt =====
-- lib/mb-rule/src/data_handle.rs: what a rule chain and its rulesets must satisfy.
use meshbus_rs.Prelude.{ℕ, ◌+◌, ◌==◌, leb, Bool, true, false, not, ◌&&◌, any, is_empty}
use meshbus_rs.Prelude.{Text, text, text_eq_inst, List, [], ◌∷◌, contains, Option, none, some}
use meshbus_rs.Prelude.{Result, ok, err, ◌>>◌, require, each}
use meshbus_rs.Rules.{
  JsonValue, RuleScheduleHint, Predicate, MatchExpr, Matches, Action, Actions, Rule, RuleChain,
  RulesetFormat, RulesetField, RulesetSource, Ruleset,
}

pub data ValidateError : Type 0 where
  compose_allow_deny_conflict compose_multiple_route_group compose_multiple_resolver_pool :
      ValidateError
  compose_multiple_cost_bias empty_compose empty_route_group empty_resolver_pool : ValidateError
  invalid_transform_params invalid_fanout_k invalid_cost_bias empty_ruleset_name : ValidateError
  empty_ruleset_ref empty_rule_id : ValidateError
  duplicate_ruleset_name empty_ruleset_value empty_ruleset_path : Text → ValidateError
  empty_predicate_value empty_predicate_set empty_match_group : Text → ValidateError
  invalid_dst_port_range : ℕ → ℕ → ValidateError
  ruleset_ip_cidr_field ruleset_domain_suffix_field ruleset_classical_field : Text → ValidateError

abbrev check : Text → Text → Result ValidateError (Unit {0})
check field value = require (not (is_empty value)) (ValidateError.empty_predicate_value field)

unfoldable pub validate_predicate : Predicate → Result ValidateError (Unit {0})
validate_predicate (Predicate.dst_port_range a b) =
    require (leb a b) (ValidateError.invalid_dst_port_range a b)
validate_predicate (Predicate.hostname_exact s) = check (text "hostname") s
validate_predicate (Predicate.operation_eq s) = check (text "operation") s
validate_predicate (Predicate.hostname_suffix s) = check (text "hostname_suffix") s
validate_predicate (Predicate.hostname_keyword s) = check (text "hostname_keyword") s
validate_predicate (Predicate.hostname_regex r) = check (text "hostname_regex") r
validate_predicate (Predicate.fragment_group_exact s) = check (text "fragment_group") s
validate_predicate (Predicate.ruleset_member name) =
    require (not (is_empty name)) ValidateError.empty_ruleset_ref
validate_predicate (Predicate.consumer s) = check (text "consumer") s
validate_predicate (Predicate.dns_qtype s) = check (text "dns_qtype") s
validate_predicate (Predicate.authenticated_user_eq s) = check (text "authenticated_user") s
validate_predicate (Predicate.dst_geo_eq s) = check (text "dst_geo") s
validate_predicate (Predicate.asn_any items) =
    require (not (is_empty items)) (ValidateError.empty_predicate_set (text "asn"))
validate_predicate (Predicate.geosite_tag s) = check (text "geosite_tag") s
validate_predicate other = ok tt

abbrev pub no_matches : Matches → Bool
no_matches Matches.no_match = true
no_matches (Matches.and_match x xs) = false

unfoldable mutual
  unfolding validate_predicate

  pub validate_match : MatchExpr → Result ValidateError (Unit {0})
  validate_match (MatchExpr.term p) = validate_predicate p
  validate_match (MatchExpr.predicate p) = validate_predicate p
  validate_match (MatchExpr.all_of items) =
      require (not (no_matches items)) (ValidateError.empty_match_group (text "all"))
      >> validate_matches items
  validate_match (MatchExpr.any_of items) =
      require (not (no_matches items)) (ValidateError.empty_match_group (text "any"))
      >> validate_matches items
  validate_match (MatchExpr.not_of inner) = validate_match inner

  pub validate_matches : Matches → Result ValidateError (Unit {0})
  validate_matches Matches.no_match = ok tt
  validate_matches (Matches.and_match x xs) = validate_match x >> validate_matches xs

-- The counters are of 32 bits in the code, where a sum that is too large panics or wraps.
pub record ComposeEffects : Type 0 where
  pub has_allow : Bool
  pub has_deny : Bool
  pub route_groups : ℕ
  pub resolver_pools : ℕ
  pub cost_biases : ℕ

abbrev pub no_effects : ComposeEffects
no_effects = record {
  has_allow = false;
  has_deny = false;
  route_groups = 0;
  resolver_pools = 0;
  cost_biases = 0;
}

unfoldable mutual
  pub collect_effects : Action → ComposeEffects → ComposeEffects
  collect_effects Action.allow out = record out { has_allow = true }
  collect_effects Action.deny out = record out { has_deny = true }
  collect_effects (Action.set_route_group g) out = record out {
    route_groups = out.route_groups + 1;
  }
  collect_effects (Action.set_resolver_pool p) out = record out {
    resolver_pools = out.resolver_pools + 1;
  }
  collect_effects (Action.set_cost_bias negative n) out = record out {
    cost_biases = out.cost_biases + 1;
  }
  collect_effects (Action.compose items) out = collect_all items out
  collect_effects (Action.set_schedule_hint h) out = out
  collect_effects (Action.set_transform desc) out = out

  pub collect_all : Actions → ComposeEffects → ComposeEffects
  collect_all Actions.no_action out = out
  collect_all (Actions.and_action a rest) out = collect_all rest (collect_effects a out)

unfoldable pub check_effects : ComposeEffects → Result ValidateError (Unit {0})
check_effects eff = do
  require (not (eff.has_allow && eff.has_deny)) ValidateError.compose_allow_deny_conflict
  require (leb eff.route_groups 1) ValidateError.compose_multiple_route_group
  require (leb eff.resolver_pools 1) ValidateError.compose_multiple_resolver_pool
  require (leb eff.cost_biases 1) ValidateError.compose_multiple_cost_bias

fanout_is_zero : RuleScheduleHint → Bool
fanout_is_zero RuleScheduleHint.automatic = false
fanout_is_zero (RuleScheduleHint.fan_out k) = k == 0

absent_or_object : JsonValue → Bool
absent_or_object JsonValue.null = true
absent_or_object (JsonValue.object t) = true
absent_or_object other = false

abbrev pub no_actions : Actions → Bool
no_actions Actions.no_action = true
no_actions (Actions.and_action a rest) = false

unfoldable mutual
  unfolding check_effects collect_effects fanout_is_zero absent_or_object

  pub validate_action : Action → Result ValidateError (Unit {0})
  validate_action Action.allow = ok tt
  validate_action Action.deny = ok tt
  validate_action (Action.set_route_group g) =
      require (not (is_empty g)) ValidateError.empty_route_group
  validate_action (Action.set_resolver_pool p) =
      require (not (is_empty p)) ValidateError.empty_resolver_pool
  validate_action (Action.set_schedule_hint h) =
      require (not (fanout_is_zero h)) ValidateError.invalid_fanout_k
  validate_action (Action.set_transform desc) =
      require (absent_or_object desc.params) ValidateError.invalid_transform_params
  validate_action (Action.set_cost_bias negative n) =
      require (leb n 9000) ValidateError.invalid_cost_bias
  validate_action (Action.compose actions) =
      require (not (no_actions actions)) ValidateError.empty_compose
      >> validate_actions actions
      >> check_effects (collect_all actions no_effects)

  pub validate_actions : Actions → Result ValidateError (Unit {0})
  validate_actions Actions.no_action = ok tt
  validate_actions (Actions.and_action a rest) = validate_action a >> validate_actions rest

check_source : Text → RulesetSource → Result ValidateError (Unit {0})
check_source name (RulesetSource.inline values) =
    require (not (is_empty values)) (ValidateError.empty_ruleset_value name)
    >> require (not (any is_empty values)) (ValidateError.empty_ruleset_value name)
check_source name (RulesetSource.local path) =
    require (not (is_empty path)) (ValidateError.empty_ruleset_path name)

check_field : Text → RulesetFormat → Option RulesetField → Result ValidateError (Unit {0})
check_field name RulesetFormat.ip_cidr (some RulesetField.src_ip) = ok tt
check_field name RulesetFormat.ip_cidr (some RulesetField.dst_ip) = ok tt
check_field name RulesetFormat.ip_cidr other = err (ValidateError.ruleset_ip_cidr_field name)
check_field name RulesetFormat.domain_suffix (some RulesetField.hostname) = ok tt
check_field name RulesetFormat.domain_suffix other =
    err (ValidateError.ruleset_domain_suffix_field name)
check_field name RulesetFormat.classical none = ok tt
check_field name RulesetFormat.classical (some f) = err (ValidateError.ruleset_classical_field name)

unfoldable pub validate_ruleset : Ruleset → Result ValidateError (Unit {0})
unfolding check_source check_field
validate_ruleset rs =
    require (not (is_empty rs.name)) ValidateError.empty_ruleset_name
    >> check_source rs.name rs.source
    >> check_field rs.name rs.format rs.field

-- `for rs in rulesets`, with the names that were seen.
unfoldable pub validate_rulesets : List Text → List Ruleset → Result ValidateError (Unit {0})
unfolding validate_ruleset
validate_rulesets names [] = ok tt
validate_rulesets names (rs ∷ sets) =
    validate_ruleset rs
    >> require (not (contains rs.name names)) (ValidateError.duplicate_ruleset_name rs.name)
    >> validate_rulesets (rs.name ∷ names) sets

id_is_empty : Option Text → Bool
id_is_empty none = false
id_is_empty (some id) = is_empty id

unfoldable pub validate_rule : Rule → Result ValidateError (Unit {0})
unfolding validate_match validate_action id_is_empty
validate_rule r =
    require (not (id_is_empty r.id)) ValidateError.empty_rule_id
    >> validate_match r.when
    >> validate_action r.action

unfoldable pub validate : RuleChain → List Ruleset → Result ValidateError (Unit {0})
unfolding validate_rulesets validate_rule validate_action
validate chain rulesets =
    each validate_rule chain.rules >> validate_action chain.default >> validate_rulesets [] rulesets
