-- ===== src/Rules/FirstMatch.antt =====
-- That lib/mb-rule/src/data_handle.rs decides by the first rule that matches.
use meshbus_rs.Prelude.{
  ℕ, zero, suc, ◌+◌, ◌<◌, ◌≡◌, ◌⊎◌, inl, inr, refl, ap, ◌∙◌, arith, true, false, List, [], ◌∷◌,
  get_elem?, some, Bool-cases,
}
use meshbus_rs.Rules.{Rule, RuleChain, RuleCtx, RuleDecision, RuleLib, Action}
use meshbus_rs.Rules.Eval.{
  RuleSetRegistry, eval_match, evaluate_from, evaluate_with_trace, decision_of, default_decision,
}

module _ (lib : RuleLib) (ctx : RuleCtx) (reg : RuleSetRegistry) where
  -- No rule before an index matches.
  abbrev pub NoneBefore : ℕ → List Rule → Type 0
  NoneBefore i rules =
      (j : ℕ) (r : Rule)
      → j < i
      → get_elem? rules j ≡ some r
      → eval_match lib r.when ctx reg ≡ false

  abbrev pub NoneOf : List Rule → Type 0
  NoneOf rules =
      (j : ℕ) (r : Rule) → get_elem? rules j ≡ some r → eval_match lib r.when ctx reg ≡ false

  abbrev pub FirstOf : List Rule → ℕ → RuleDecision → Type 0
  FirstOf rules idx d =
      (i : ℕ) × (rule : Rule) × (get_elem? rules i ≡ some rule)
      × (eval_match lib rule.when ctx reg ≡ true)
      × NoneBefore i rules
      × (d ≡ decision_of rule (idx + i))

  evaluate_from_lem :
      (rules : List Rule) (idx : ℕ) (default : Action)
      → FirstOf rules idx (evaluate_from lib idx rules default ctx reg)
        ⊎ (NoneOf rules × (evaluate_from lib idx rules default ctx reg ≡ default_decision default))
  unfolding evaluate_from
  evaluate_from_lem [] idx default = inr (λ j r e. absurd (cc e), refl)
  evaluate_from_lem (rule ∷ rules) idx default =
      elim (Bool-cases (eval_match lib rule.when ctx reg)) [
        | inl e ↦ inl (
          0,
          rule,
          refl,
          e,
          λ j r h p. absurd (omega (arith, h)),
          rw (e) (ap (λ i. decision_of rule i) (omega arith)),
        )
        | inr e ↦ elim (evaluate_from_lem rules (suc idx) default) [
          | inl (i, found, p, q, before, d) ↦ inl (
            suc i,
            found,
            p,
            q,
            before_cons e before,
            rw (e) (d ∙ ap (λ k. decision_of found k) (omega arith)),
          )
          | inr (never, d) ↦ inr (never_cons e never, rw (e) d)
        ]
      ]
    where
      before_cons :
          {i : ℕ}
          → eval_match lib rule.when ctx reg ≡ false
          → NoneBefore i rules
          → NoneBefore (suc i) (rule ∷ rules)
      before_cons e before zero r h p = let q : rule ≡ r = cc in rw (← q) e
      before_cons e before (suc j) r h p = before j r (omega (arith, h)) p

      never_cons : eval_match lib rule.when ctx reg ≡ false → NoneOf rules → NoneOf (rule ∷ rules)
      never_cons e never zero r p = let q : rule ≡ r = cc in rw (← q) e
      never_cons e never (suc j) r p = never j r p

-- Either a rule matches and no rule before it does, and the decision is its action with its index and
-- its id in the trace; or no rule matches, and the decision is the chain's default, marked as such.
pub evaluate_with_trace_first :
    (lib : RuleLib) (chain : RuleChain) (ctx : RuleCtx) (reg : RuleSetRegistry)
    → ((i : ℕ) × (rule : Rule) × (get_elem? chain.rules i ≡ some rule)
        × (eval_match lib rule.when ctx reg ≡ true)
        × NoneBefore lib ctx reg i chain.rules
        × (evaluate_with_trace lib chain ctx reg ≡ decision_of rule i))
      ⊎ (NoneOf lib ctx reg chain.rules
          × (evaluate_with_trace lib chain ctx reg ≡ default_decision chain.default))
unfolding evaluate_with_trace
evaluate_with_trace_first lib chain ctx reg =
    elim (evaluate_from_lem lib ctx reg chain.rules 0 chain.default) [
      | inr h ↦ inr h
      | inl (i, rule, p, q, before, d) ↦
          inl (i, rule, p, q, before, d ∙ ap (λ k. decision_of rule k) (omega arith))
    ]
