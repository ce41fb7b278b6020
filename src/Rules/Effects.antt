-- ===== src/Rules/Effects.antt =====
-- That the checks of lib/mb-rule/src/data_handle.rs leave only actions whose parts agree.
use meshbus_rs.Prelude.{
  ℕ, ◌+◌, ◌<◌, ◌≤◌, ◌≡◌, arith, Bool, true, false, not, ◌&&◌, ◌||◌, any, any-append, if◌then◌else◌,
}
use meshbus_rs.Prelude.{
  List, [], ◌∷◌, ◌++◌, length, length-append, All, All-append, get_elem?, some, zero, suc, inl, inr,
}
use meshbus_rs.Prelude.{ok, require, >>-require, >>-eq-ok, each, each-In, In, ◌>>◌}
use meshbus_rs.Rules.{Action, Actions, RuleChain, RuleCtx, RuleLib, Ruleset, Rule}
use meshbus_rs.Rules.Eval.{RuleSetRegistry, evaluate_with_trace}
use meshbus_rs.Rules.FirstMatch.{evaluate_with_trace_first}
use meshbus_rs.Rules.Validate.{
  ValidateError, ComposeEffects, no_effects, no_actions, collect_effects, collect_all,
  check_effects, validate_action, validate_actions, validate_rule, validate,
}

-- The actions that an action consists of, in order, with every composition taken apart.
unfoldable mutual
  pub leaves : Action → List Action
  leaves (Action.compose items) = leaves_of items
  leaves Action.allow = Action.allow ∷ []
  leaves Action.deny = Action.deny ∷ []
  leaves (Action.set_route_group g) = Action.set_route_group g ∷ []
  leaves (Action.set_resolver_pool p) = Action.set_resolver_pool p ∷ []
  leaves (Action.set_schedule_hint h) = Action.set_schedule_hint h ∷ []
  leaves (Action.set_transform d) = Action.set_transform d ∷ []
  leaves (Action.set_cost_bias negative n) = Action.set_cost_bias negative n ∷ []

  pub leaves_of : Actions → List Action
  leaves_of Actions.no_action = []
  leaves_of (Actions.and_action a rest) = leaves a ++ leaves_of rest

abbrev pub is_allow : Action → Bool
is_allow Action.allow = true
is_allow other = false

abbrev pub is_deny : Action → Bool
is_deny Action.deny = true
is_deny other = false

abbrev pub is_route_group : Action → Bool
is_route_group (Action.set_route_group g) = true
is_route_group other = false

abbrev pub is_resolver_pool : Action → Bool
is_resolver_pool (Action.set_resolver_pool p) = true
is_resolver_pool other = false

abbrev pub is_cost_bias : Action → Bool
is_cost_bias (Action.set_cost_bias negative n) = true
is_cost_bias other = false

abbrev pub count : (Action → Bool) → List Action → ℕ
count p [] = 0
count p (a ∷ rest) = (if p a then 1 else 0) + count p rest

count-append :
    (p : Action → Bool) (xs ys : List Action) → count p (xs ++ ys) ≡ count p xs + count p ys
count-append p [] ys = omega arith
count-append p (x ∷ xs) ys = omega (arith, count-append p xs ys)

-- What a list of actions adds to the effects.
abbrev tally : List Action → ComposeEffects → ComposeEffects
tally ls out = record {
  has_allow = out.has_allow || any is_allow ls;
  has_deny = out.has_deny || any is_deny ls;
  route_groups = out.route_groups + count is_route_group ls;
  resolver_pools = out.resolver_pools + count is_resolver_pool ls;
  cost_biases = out.cost_biases + count is_cost_bias ls;
}

tally-append :
    (xs ys : List Action) (out : ComposeEffects) → tally ys (tally xs out) ≡ tally (xs ++ ys) out
tally-append xs ys out = ground (
  arith,
  any-append is_allow xs ys,
  any-append is_deny xs ys,
  count-append is_route_group xs ys,
  count-append is_resolver_pool xs ys,
  count-append is_cost_bias xs ys,
)

mutual
  unfolding collect_effects collect_all leaves leaves_of

  collect_effects-leaves :
      (a : Action) (out : ComposeEffects) → collect_effects a out ≡ tally (leaves a) out
  collect_effects-leaves (Action.compose items) out = collect_all-leaves items out
  collect_effects-leaves Action.allow out = ground arith
  collect_effects-leaves Action.deny out = ground arith
  collect_effects-leaves (Action.set_route_group g) out = ground arith
  collect_effects-leaves (Action.set_resolver_pool p) out = ground arith
  collect_effects-leaves (Action.set_schedule_hint h) out = ground arith
  collect_effects-leaves (Action.set_transform d) out = ground arith
  collect_effects-leaves (Action.set_cost_bias negative n) out = ground arith

  collect_all-leaves :
      (items : Actions) (out : ComposeEffects) → collect_all items out ≡ tally (leaves_of items) out
  collect_all-leaves Actions.no_action out = ground arith
  collect_all-leaves (Actions.and_action a rest) out =
      rw (collect_effects-leaves a out, collect_all-leaves rest (tally (leaves a) out))
        (tally-append (leaves a) (leaves_of rest) out)

-- Actions that can be applied together.
abbrev pub Coherent : List Action → Type 0
Coherent ls =
    ((any is_allow ls && any is_deny ls) ≡ false)
    × (count is_route_group ls ≤ 1)
    × (count is_resolver_pool ls ≤ 1)
    × (count is_cost_bias ls ≤ 1)
    × (0 < length ls)

abbrev pub EachValid : List Action → Type 0
EachValid ls = All (λ l. validate_action l ≡ ok tt) ls

check_effects-tally :
    (ls : List Action) → check_effects (tally ls no_effects) ≡ ok tt → 0 < length ls → Coherent ls
unfolding check_effects
check_effects-tally ls h k = ground arith

compose_parts :
    (items : Actions)
    → validate_action (Action.compose items) ≡ ok tt
    → ((require (not (no_actions items)) ValidateError.empty_compose >> validate_actions items)
        ≡ ok tt)
      × (check_effects (collect_all items no_effects) ≡ ok tt)
unfolding validate_action
compose_parts items h =
    >>-eq-ok
      (require (not (no_actions items)) ValidateError.empty_compose >> validate_actions items) h

mutual
  unfolding validate_action validate_actions leaves leaves_of

  leaves-Valid :
      (a : Action) → validate_action a ≡ ok tt → EachValid (leaves a) × (0 < length (leaves a))
  leaves-Valid (Action.compose items) h =
      let (h1, _) = compose_parts items h in
      let (nonempty, h2) = >>-require (not (no_actions items)) ValidateError.empty_compose h1 in
      leaves_of-Valid items h2 nonempty
  leaves-Valid Action.allow h = ((h, tt), omega arith)
  leaves-Valid Action.deny h = ((h, tt), omega arith)
  leaves-Valid (Action.set_route_group g) h = ((h, tt), omega arith)
  leaves-Valid (Action.set_resolver_pool p) h = ((h, tt), omega arith)
  leaves-Valid (Action.set_schedule_hint p) h = ((h, tt), omega arith)
  leaves-Valid (Action.set_transform d) h = ((h, tt), omega arith)
  leaves-Valid (Action.set_cost_bias negative n) h = ((h, tt), omega arith)

  all_leaves-Valid :
      (items : Actions) → validate_actions items ≡ ok tt → EachValid (leaves_of items)
  all_leaves-Valid Actions.no_action h = tt
  all_leaves-Valid (Actions.and_action a rest) h =
      let (p, q) = >>-eq-ok (validate_action a) h in
      All-append (λ l. validate_action l ≡ ok tt) (leaves a) (leaves_of rest) ((leaves-Valid a p).0)
        (all_leaves-Valid rest q)

  leaves_of-Valid :
      (items : Actions)
      → validate_actions items ≡ ok tt
      → not (no_actions items) ≡ true
      → EachValid (leaves_of items) × (0 < length (leaves_of items))
  leaves_of-Valid Actions.no_action h k = absurd (cc k)
  leaves_of-Valid (Actions.and_action a rest) h k =
      let (p, q) = >>-eq-ok (validate_action a) h in
      let (parts, some_part) = leaves-Valid a p in
      let both =
        All-append (λ l. validate_action l ≡ ok tt) (leaves a) (leaves_of rest) parts
          (all_leaves-Valid rest q) in
      (both, omega (arith, some_part, length-append (leaves a) (leaves_of rest)))

one_part-Coherent : (a : Action) → Coherent (a ∷ [])
one_part-Coherent a = ground arith

-- A validated action, with its compositions taken apart at every depth, has a part, never both `allow`
-- and `deny`, at most one route group, one resolver pool and one cost bias, and each part is valid.
pub validate_action-Coherent :
    (a : Action) → validate_action a ≡ ok tt → Coherent (leaves a) × EachValid (leaves a)
unfolding leaves
validate_action-Coherent (Action.compose items) h =
    let (each_valid, nonempty) = leaves-Valid (Action.compose items) h in
    let (_, checked) = compose_parts items h in
    (
      check_effects-tally (leaves_of items) (rw (← collect_all-leaves items no_effects) checked)
          nonempty,
      each_valid,
    )
validate_action-Coherent Action.allow h = (one_part-Coherent Action.allow, (h, tt))
validate_action-Coherent Action.deny h = (one_part-Coherent Action.deny, (h, tt))
validate_action-Coherent (Action.set_route_group g) h =
    (one_part-Coherent (Action.set_route_group g), (h, tt))
validate_action-Coherent (Action.set_resolver_pool p) h =
    (one_part-Coherent (Action.set_resolver_pool p), (h, tt))
validate_action-Coherent (Action.set_schedule_hint p) h =
    (one_part-Coherent (Action.set_schedule_hint p), (h, tt))
validate_action-Coherent (Action.set_transform d) h =
    (one_part-Coherent (Action.set_transform d), (h, tt))
validate_action-Coherent (Action.set_cost_bias negative n) h =
    (one_part-Coherent (Action.set_cost_bias negative n), (h, tt))

In-get_elem? : (rules : List Rule) (i : ℕ) (r : Rule) → get_elem? rules i ≡ some r → In r rules
In-get_elem? [] i r h = absurd (cc h)
In-get_elem? (x ∷ xs) zero r h = In.head (cc)
In-get_elem? (x ∷ xs) (suc i) r h = In.later (In-get_elem? xs i r h)

rule_action : (r : Rule) → validate_rule r ≡ ok tt → validate_action r.action ≡ ok tt
unfolding validate_rule
rule_action r h = (>>-eq-ok _ h).1

-- Whatever a validated chain decides for a flow, with any registry of rulesets, by a rule or by its
-- default: the parts of the action agree and are valid.
pub evaluate_with_trace-Coherent :
    (chain : RuleChain) (rulesets : List Ruleset) (lib : RuleLib) (ctx : RuleCtx)
    (reg : RuleSetRegistry)
    → validate chain rulesets ≡ ok tt
    → Coherent (leaves (evaluate_with_trace lib chain ctx reg).action)
      × EachValid (leaves (evaluate_with_trace lib chain ctx reg).action)
unfolding validate
evaluate_with_trace-Coherent chain rulesets lib ctx reg h =
    let (h1, _) = >>-eq-ok (each validate_rule chain.rules >> validate_action chain.default) h in
    let (by_rule, by_default) = >>-eq-ok (each validate_rule chain.rules) h1 in
    elim (evaluate_with_trace_first lib chain ctx reg) [
      | inl (i, rule, found, _, _, d) ↦
          let valid = each-In validate_rule (In-get_elem? chain.rules i rule found) by_rule in
          rw (d) (validate_action-Coherent rule.action (rule_action rule valid))
      | inr (_, d) ↦ rw (d) (validate_action-Coherent chain.default by_default)
    ]
