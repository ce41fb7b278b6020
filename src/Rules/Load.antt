-- ===== src/Rules/Load.antt =====
-- lib/mb-rule/src/data_handle.rs: the registry of the named rulesets, read from their sources.
use meshbus_rs.Prelude.{not, ◌&&◌, if◌then◌else◌, is_empty, filter}
use meshbus_rs.Prelude.{
  Text, text, text_eq_inst, split, strip_suffix, strip_prefix, is_some, List, [], ◌∷◌, ◌++◌, map,
  none, some,
}
use meshbus_rs.Prelude.{Result, ok, ◌>>◌, ◌>>=◌, require, map_err, contains_key, insert}
use meshbus_rs.Endpoint.{show_u16}
use meshbus_rs.Rules.{IpNet, RulesetFormat, RulesetSource, Ruleset}
use meshbus_rs.Rules.Eval.{ResolvedRuleset, RuleSetRegistry}
use meshbus_rs.Rules.Validate.{ValidateError, validate_ruleset}

-- The errors of other packages are their texts.
pub data ParseError : Type 0 where
  missing_default missing_rules rule_both_match_and_flat : ParseError
  yaml unknown_action unknown_predicate_key cidr regex ip int : Text → ParseError
  invalid_value : Text → Text → ParseError

-- Files, the removal of white space, and networks written as texts; errors as their texts.
pub record LoadLib : Type 0 where
  pub read_to_string : Text → Result Text Text
  pub trim : Text → Text
  pub trim_start : Text → Text
  pub parse_net : Text → Result Text IpNet

ruleset_says : Text → Text → Text
ruleset_says name says = text "uleset `" ++ (name ++ says)

unfoldable pub error_text : ValidateError → Text
unfolding ruleset_says
error_text ValidateError.compose_allow_deny_conflict = text "Compose contains both Allow and Deny"
error_text ValidateError.compose_multiple_route_group =
    text "Compose contains more than one SetRouteGroup"
error_text ValidateError.compose_multiple_resolver_pool =
    text "Compose contains more than one set_resolver_pool"
error_text ValidateError.compose_multiple_cost_bias =
    text "Compose contains more than one SetCostBias"
error_text ValidateError.empty_compose = text "Compose must not be empty"
error_text ValidateError.empty_route_group = text "SetRouteGroup must not be empty"
error_text ValidateError.empty_resolver_pool = text "set_resolver_pool must not be empty"
error_text ValidateError.invalid_transform_params =
    text "SetTransform params must be absent or object"
error_text ValidateError.invalid_fanout_k = text "fanout.k must be >= 1"
error_text ValidateError.invalid_cost_bias = text "SetCostBias must be between -9000 and 9000"
error_text ValidateError.empty_ruleset_name = text "ruleset name must not be empty"
error_text ValidateError.empty_ruleset_ref = text "ruleset reference must not be empty"
error_text ValidateError.empty_rule_id = text "rule id must not be empty"
error_text (ValidateError.duplicate_ruleset_name name) =
    b'r' ∷ ruleset_says name (text "` is duplicate")
error_text (ValidateError.empty_ruleset_value name) =
    b'r' ∷ ruleset_says name (text "` value must not be empty")
error_text (ValidateError.empty_ruleset_path name) =
    b'r' ∷ ruleset_says name (text "` local path must not be empty")
error_text (ValidateError.empty_predicate_value field) =
    text "predicate `" ++ (field ++ text "` must not be empty")
error_text (ValidateError.empty_predicate_set field) =
    text "predicate set `" ++ (field ++ text "` must not be empty")
error_text (ValidateError.empty_match_group op) =
    text "match `" ++ (op ++ text "` group must not be empty")
error_text (ValidateError.invalid_dst_port_range a b) =
    text "dst_port_range start `"
    ++ (show_u16 a ++ (text "` must be <= end `" ++ (show_u16 b ++ text "`")))
error_text (ValidateError.ruleset_ip_cidr_field name) =
    b'R' ∷ ruleset_says name (text "` format `ip-cidr` requires field=src_ip or dst_ip")
error_text (ValidateError.ruleset_domain_suffix_field name) =
    b'R' ∷ ruleset_says name (text "` format `domain-suffix` requires field=hostname")
error_text (ValidateError.ruleset_classical_field name) =
    b'R' ∷ ruleset_says name (text "` format `classical` must omit field")

strip_cr : Text → Text
strip_cr line = elim (strip_suffix (13 ∷ []) line) [ none ↦ line | some front ↦ front ]

-- `str::lines`: a line ends at `\n` or `\r\n`; no line follows the last end.
lines_of : List Text → List Text
unfolding strip_cr
lines_of [] = []
lines_of (last ∷ []) = if is_empty last then [] else last ∷ []
lines_of (line ∷ next ∷ more) = strip_cr line ∷ lines_of (next ∷ more)

content_lines : LoadLib → Text → List Text
unfolding lines_of
content_lines lib content = map lib.trim (
    filter
      (λ l.
        not (is_empty (lib.trim l)) && not (is_some (strip_prefix (b'#' ∷ []) (lib.trim_start l))))
      (lines_of (split 10 content)))

unfoldable pub raw_lines : LoadLib → RulesetSource → Result ParseError (List Text)
unfolding content_lines
raw_lines lib (RulesetSource.inline values) = ok values
raw_lines lib (RulesetSource.local path) = do
  content ←
      map_err (λ e. ParseError.unknown_action (text "read " ++ (path ++ (text ": " ++ e))))
        (lib.read_to_string path)
  ok (content_lines lib content)

unfoldable pub parse_nets : LoadLib → Text → List Text → Result ParseError (List IpNet)
parse_nets lib name [] = ok []
parse_nets lib name (l ∷ ls) = do
  net ←
      map_err
        (λ e.
          ParseError.invalid_value (text "rule_sets." ++ (name ++ text ".values[]"))
            (l ++ (text ": " ++ e)))
        (lib.parse_net l)
  nets ← parse_nets lib name ls
  ok (net ∷ nets)

unfoldable pub resolve_lines :
    LoadLib → Ruleset → RulesetFormat → List Text → Result ParseError ResolvedRuleset
resolve_lines lib rs RulesetFormat.ip_cidr lines = do
  nets ← parse_nets lib rs.name lines
  ok (record { field = rs.field; format = rs.format; entries = []; cidrs = nets })
resolve_lines lib rs RulesetFormat.domain_suffix lines =
    ok (record { field = rs.field; format = rs.format; entries = lines; cidrs = [] })
resolve_lines lib rs RulesetFormat.classical lines =
    ok (record { field = rs.field; format = rs.format; entries = lines; cidrs = [] })

unfoldable pub resolve : LoadLib → Ruleset → Result ParseError ResolvedRuleset
unfolding raw_lines resolve_lines error_text
resolve lib rs = do
  map_err (λ e. ParseError.invalid_value (text "rule_sets." ++ rs.name) (error_text e))
      (validate_ruleset rs)
  lines ← raw_lines lib rs.source
  require (not (is_empty lines))
      (ParseError.invalid_value (text "rule_sets") (b'`' ∷ (rs.name ++ text "` empty")))
  resolve_lines lib rs rs.format lines

unfoldable pub load_from :
    LoadLib → List (Text × ResolvedRuleset) → List Ruleset → Result ParseError RuleSetRegistry
load_from lib out [] = ok (record { sets = out })
load_from lib out (rs ∷ sets) = do
  require (not (contains_key rs.name out)) (
      ParseError.invalid_value (text "rule_sets")
        (text "duplicate name `" ++ (rs.name ++ text "`")))
  resolved ← resolve lib rs
  load_from lib (insert rs.name resolved out) sets

unfoldable pub load : LoadLib → List Ruleset → Result ParseError RuleSetRegistry
load lib sets = load_from lib [] sets
