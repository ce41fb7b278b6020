-- ===== src/Rules/Tests.antt =====
-- Runs of lib/mb-rule/src/data_handle.rs.
use meshbus_rs.Rules.Load.{load_from, resolve}
use meshbus_rs.Rules.Validate.{validate_ruleset}
use meshbus_rs.Prelude.{each}
use meshbus_rs.Prelude.{ℕ, ◌≡◌, ◌⊎◌, refl, true, false, text, [], ◌∷◌, get_elem?, some, err, head}
use meshbus_rs.Rules.{
  RuleLib, RuleCtx, empty_ctx, Predicate, MatchExpr, Action, Actions, Rule, RuleChain, Ruleset,
  RulesetFormat, RulesetField, RulesetSource,
}
use meshbus_rs.Rules.Eval.{
  RuleSetRegistry, empty_registry, eval_match, evaluate_with_trace, decision_of, default_decision,
}
use meshbus_rs.Rules.FirstMatch.{NoneBefore, NoneOf, evaluate_with_trace_first}
use meshbus_rs.Rules.Validate.{validate}
use meshbus_rs.Rules.Effects.{leaves, Coherent, EachValid, evaluate_with_trace-Coherent}
use meshbus_rs.Rules.Load.{LoadLib, load}
use meshbus_rs.Rules.Loaded.{Holds, load-Holds}

abbrev no_nets : RuleLib
no_nets = record { net_contains = λ n a. false; is_match = λ r t. false }

abbrev no_files : LoadLib
no_files = record {
  read_to_string = λ p. err (text "not found");
  trim = λ t. t;
  trim_start = λ t. t;
  parse_net = λ t. err (text "invalid IP address syntax");
}

abbrev to_mesh : Action
to_mesh = Action.compose (
    Actions.and_action Action.allow
      (Actions.and_action (Action.set_route_group (text "mesh")) Actions.no_action))

abbrev chain : RuleChain
chain = record {
  rules =
      record {
        id = some (text "dns");
        when = MatchExpr.term (Predicate.dst_port_eq 53);
        action = to_mesh;
      }
      ∷ [];
  default = Action.deny;
}

abbrev to_dns : RuleCtx
to_dns = record empty_ctx { dst_port = some 53 }

evaluate_with_trace_first_example :
    ((i : ℕ) × (rule : Rule) × (get_elem? chain.rules i ≡ some rule)
      × (eval_match no_nets rule.when to_dns empty_registry ≡ true)
      × NoneBefore no_nets to_dns empty_registry i chain.rules
      × (evaluate_with_trace no_nets chain to_dns empty_registry ≡ decision_of rule i))
    ⊎ (NoneOf no_nets to_dns empty_registry chain.rules
        × (evaluate_with_trace no_nets chain to_dns empty_registry
            ≡ default_decision chain.default))
evaluate_with_trace_first_example = evaluate_with_trace_first no_nets chain to_dns empty_registry

evaluate_with_trace-Coherent_example :
    Coherent (leaves (evaluate_with_trace no_nets chain to_dns empty_registry).action)
    × EachValid (leaves (evaluate_with_trace no_nets chain to_dns empty_registry).action)
unfolding validate each
evaluate_with_trace-Coherent_example =
    evaluate_with_trace-Coherent chain [] no_nets to_dns empty_registry refl

abbrev internal : Ruleset
internal = record {
  name = text "internal";
  format = RulesetFormat.domain_suffix;
  field = some RulesetField.hostname;
  source = RulesetSource.inline (text ".corp" ∷ []);
}

abbrev registry : RuleSetRegistry
registry = record {
  sets =
      (
        text "internal",
        record {
          field = some RulesetField.hostname;
          format = RulesetFormat.domain_suffix;
          entries = text ".corp" ∷ [];
          cidrs = [];
        },
      )
      ∷ [];
}

load-Holds_example : Holds no_files registry internal
unfolding load load_from resolve validate_ruleset
load-Holds_example =
    load-Holds no_files (internal ∷ []) {reg = registry} {rs = internal} refl (head refl)
