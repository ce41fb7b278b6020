-- ===== src/Kernel/Registry/Walks.antt =====
-- The walks along the jumps that the hooks of kernel/registry declare.
use meshbus_rs.Prelude.{◌+◌, text_eq_inst, List, [], ◌∷◌, ◌++◌, length}
use mathlib.Core.WellFounded.{Acc}
use meshbus_rs.Prelude.{some, ok, lookup, keys, map, beq-cases}
use meshbus_rs.Prelude.{>>=-eq-ok, In, head, later, ◌≡◌, refl, subst, inl, inr, arith, nat_eq}
use meshbus_rs.Kernel.Types.{PipelineId, HookId, HookSpec, Pipeline, KernelRegistry}
use meshbus_rs.Kernel.Registry.Checks.{jump_targets}
use meshbus_rs.Kernel.Registry.JumpDag.{
  neighbors, pipeline_targets, jump_graph, search_all, check_jump_dag,
}
use meshbus_rs.Kernel.Registry.Acyclic.{Jumps, search_all_grounded}
use meshbus_rs.Kernel.Registry.Facts.{verify-Checked}
use meshbus_rs.Kernel.Registry.Metadata.{verify}
use meshbus_rs.Prelude.{In-keys}

-- Some hook of a pipeline declares a jump to another.
abbrev pub DeclaresJump : KernelRegistry → PipelineId → PipelineId → Type 0
DeclaresJump reg p q =
    (pipeline : Pipeline) × (h : HookId) × (spec : HookSpec) × (lookup p reg.pipelines
      ≡ some pipeline)
    × In h pipeline.hooks
    × (lookup h reg.hooks ≡ some spec)
    × In q spec.may_jump_to

-- A sequence of one or more declared jumps.
pub data Walk (reg : KernelRegistry) : PipelineId → PipelineId → Type 0 where
  one : (p q : PipelineId) → DeclaresJump reg p q → Walk reg p q
  more : (p q r : PipelineId) → DeclaresJump reg p q → Walk reg q r → Walk reg p r

follow :
    (reg : KernelRegistry) (p q r : PipelineId) → Walk reg p q → DeclaresJump reg q r → Walk reg p r
follow reg p q r (one _ _ j) k = more p q r j (one q r k)
follow reg p q r (more _ m _ j w) k = more p m r j (follow reg m q r w k)

In-append_left {ℓ} : {A : Type ℓ} (a : A) (xs ys : List A) → In a xs → In a (xs ++ ys)
In-append_left a [] ys i = elim i [ ]
In-append_left a (x ∷ xs) ys (head e) = head e
In-append_left a (x ∷ xs) ys (later i) = later (In-append_left a xs ys i)

In-append_right {ℓ} : {A : Type ℓ} (a : A) (xs ys : List A) → In a ys → In a (xs ++ ys)
In-append_right a [] ys i = i
In-append_right a (x ∷ xs) ys i = later (In-append_right a xs ys i)

In-pipeline_targets :
    (reg : KernelRegistry) (hs : List HookId) (h : HookId) {spec : HookSpec} (q : PipelineId)
    → In h hs
    → lookup h reg.hooks ≡ some spec
    → In q spec.may_jump_to
    → In q (pipeline_targets reg hs)
unfolding pipeline_targets jump_targets
In-pipeline_targets reg [] h q i found j = elim i [ ]
In-pipeline_targets reg (x ∷ hs) h {spec} q (head e) found i =
    let found' = subst (λ k. lookup k reg.hooks ≡ some spec) e found in
    In-append_left q (jump_targets reg x) (pipeline_targets reg hs) (rw (found', jump_targets) i)
In-pipeline_targets reg (x ∷ hs) h q (later j) found i =
    In-append_right q (jump_targets reg x) (pipeline_targets reg hs)
      (In-pipeline_targets reg hs h q j found i)

lookup-jump_graph :
    (reg : KernelRegistry) (ps : List (PipelineId × Pipeline)) (p : PipelineId)
    {pipeline : Pipeline}
    → lookup p ps ≡ some pipeline
    → lookup p (map (λ e. (e.0, pipeline_targets reg e.1.hooks)) ps)
      ≡ some (pipeline_targets reg pipeline.hooks)
lookup-jump_graph reg [] p h = absurd (cc h)
lookup-jump_graph reg ((k, v) ∷ ps) p {pipeline} h = elim (beq-cases k p) [
  | inl e ↦ let same : v ≡ pipeline = cc (rw e.0 at h) in rw (e.0, same) refl
  | inr n ↦ rw n.0 (lookup-jump_graph reg ps p (rw n.0 at h))
]

declared-Jumps :
    (reg : KernelRegistry) (p q : PipelineId) → DeclaresJump reg p q → Jumps (jump_graph reg) q p
unfolding jump_graph
declared-Jumps reg p q (pipeline, h, spec, found, i, known, j) =
    rw (neighbors, lookup-jump_graph reg reg.pipelines p found)
      (In-pipeline_targets reg pipeline.hooks h q i known j)

nothing_leads_back :
    (reg : KernelRegistry) (p : PipelineId) → Acc (Jumps (jump_graph reg)) p → ¬ Walk reg p p
nothing_leads_back reg p (Acc.intro _ smaller) (one _ _ j) =
    nothing_leads_back reg p (smaller p (declared-Jumps reg p p j)) (one p p j)
nothing_leads_back reg p (Acc.intro _ smaller) (more _ q _ j w) =
    nothing_leads_back reg q (smaller q (declared-Jumps reg p q j)) (follow reg q p q w j)

check_jump_dag_grounded :
    (reg : KernelRegistry) (p : PipelineId)
    → check_jump_dag reg ≡ ok tt
    → In p (keys reg.pipelines)
    → Acc (Jumps (jump_graph reg)) p
unfolding check_jump_dag
check_jump_dag_grounded reg p h i =
    let (c, e, _) =
      >>=-eq-ok (search_all (jump_graph reg) (length reg.pipelines + 1) (keys reg.pipelines) [])
        h in
    search_all_grounded (jump_graph reg) (length reg.pipelines + 1) (keys reg.pipelines) [] c
      (λ q k. absurd (omega (arith, k))) (λ q k. cc k) e p i

declared_key : (reg : KernelRegistry) (p q : PipelineId) → Walk reg p q → In p (keys reg.pipelines)
declared_key reg p q (one _ _ (_, _, _, found, _, _, _)) = In-keys p reg.pipelines (rw found refl)
declared_key reg p q (more _ _ _ (_, _, _, found, _, _, _) _) =
    In-keys p reg.pipelines (rw found refl)

-- In a registry that `verify` accepts, no sequence of declared jumps leads from a pipeline back to
-- itself.
pub verify_acyclic : (reg : KernelRegistry) (p : PipelineId) → verify reg ≡ ok tt → ¬ Walk reg p p
verify_acyclic reg p h w =
    nothing_leads_back reg p
      (check_jump_dag_grounded reg p (verify-Checked reg h).jump_dag (declared_key reg p p w)) w
