-- ===== src/Kernel/Registry/Depth.antt =====
-- The search for jump cycles of kernel/registry/data_handle.rs never runs out of its depth.
use meshbus_rs.Prelude.{
  ℕ, zero, suc, ◌+◌, ◌≤◌, ◌<◌, ◌==◌, text_eq_inst, List, [], ◌∷◌, ◌++◌, length,
}
use meshbus_rs.Prelude.{
  some, Result, ok, err, >>=-eq-ok, Result-cases, lookup, insert, keys, map, beq-cases, beq_refl,
}
use meshbus_rs.Prelude.{
  if◌then◌else◌, In, head, later, Bool-cases, ◌≡◌, ◌≢◌, refl, sym, subst, inl, inr, arith, nat_eq,
}
use meshbus_rs.Prelude.{ap, Option-cases, In-keys, require-eq-ok, each-In, ◌⊎◌}
use meshbus_rs.Kernel.Types.{PipelineId, HookId, Pipeline, KernelRegistry}
use meshbus_rs.Kernel.Registry.Checks.{jump_targets, check_jump_targets}
use meshbus_rs.Kernel.Registry.Facts.{each_pipeline_hook_at}
use meshbus_rs.Kernel.Registry.Errors.{VerifyError}
use meshbus_rs.Kernel.Registry.JumpDag.{
  Adjacency, Colors, color_of, neighbors, visit, dfs_cycle, pipeline_targets, jump_graph,
  search_all, check_jump_dag,
}
use meshbus_rs.Kernel.Registry.Acyclic.{color_of-insert}

-- How many of the nodes are white.
unfoldable whites : List PipelineId → Colors → ℕ
whites [] c = 0
whites (k ∷ ks) c = (if color_of k c == 0 then 1 else 0) + whites ks c

-- What was coloured stays coloured.
abbrev Darkens : Colors → Colors → Type 0
Darkens c c' = (p : PipelineId) → color_of p c' ≡ 0 → color_of p c ≡ 0

insert-Darkens : (node : PipelineId) (k : ℕ) (c : Colors) → 0 < k → Darkens c (insert node k c)
insert-Darkens node k c pos p h = elim (beq-cases node p) [
  | inl e ↦ absurd (ground (arith, pos, h, color_of-insert node p k c, e.0))
  | inr n ↦ ground (arith, h, color_of-insert node p k c, n.0)
]

whites-Darkens : (ks : List PipelineId) (c c' : Colors) → Darkens c c' → whites ks c' ≤ whites ks c
unfolding whites
whites-Darkens [] c c' d = omega arith
whites-Darkens (k ∷ ks) c c' d = ground (arith, d k, whites-Darkens ks c c' d)

whites-insert :
    (ks : List PipelineId) (node : PipelineId) (c : Colors)
    → In node ks
    → color_of node c ≡ 0
    → whites ks (insert node 1 c) < whites ks c
unfolding whites
whites-insert [] node c i h = elim i [ ]
whites-insert (k ∷ ks) node c (head e) h = ground (
  arith,
  h,
  color_of-insert node k 1 c,
  beq_refl node,
  e,
  whites-Darkens ks c (insert node 1 c) (insert-Darkens node 1 c (omega arith)),
)
whites-insert (k ∷ ks) node c (later i) h =
    ground (arith, insert-Darkens node 1 c (omega arith) k, whites-insert ks node c i h)

module _ (adj : Adjacency) where
  abbrev DarkensAll : (PipelineId → Colors → Result VerifyError Colors) → Type 0
  DarkensAll dfs = (n : PipelineId) (c c' : Colors) → dfs n c ≡ ok c' → Darkens c c'

  visit-Darkens :
      (dfs : PipelineId → Colors → Result VerifyError Colors)
      → DarkensAll dfs
      → (node : PipelineId) (ns : List PipelineId) (c c' : Colors) → visit dfs node ns c ≡ ok c'
      → Darkens c c'
  unfolding visit
  visit-Darkens dfs s node [] c c' h p k = let e : c ≡ c' = cc h in rw e k
  visit-Darkens dfs s node (n ∷ ns) c c' h p k = elim (Bool-cases (color_of n c == 0)) [
    | inl white ↦
        let (c1, e, rest) = >>=-eq-ok (dfs n c) (rw white at h) in
        s n c c1 e p (visit-Darkens dfs s node ns c1 c' rest p k)
    | inr colored ↦ elim (Bool-cases (color_of n c == 1)) [
      | inl on_path ↦ absurd (cc (rw (colored, on_path) at h))
      | inr finished ↦ visit-Darkens dfs s node ns c c' (rw (colored, finished) at h) p k
    ]
  ]

  dfs_cycle-Darkens : (fuel : ℕ) → DarkensAll (dfs_cycle adj fuel)
  unfolding dfs_cycle
  dfs_cycle-Darkens zero node c c' h p k = absurd (cc h)
  dfs_cycle-Darkens (suc fuel) node c c' h p k =
      let (c1, e, last) =
        >>=-eq-ok (visit (dfs_cycle adj fuel) node (neighbors adj node) (insert node 1 c)) h in
      let same : insert node 2 c1 ≡ c' = cc last in
      insert-Darkens node 1 c (omega arith) p (
        visit-Darkens (dfs_cycle adj fuel) (dfs_cycle-Darkens fuel) node (neighbors adj node)
          (insert node 1 c) c1 e p (insert-Darkens node 2 c1 (omega arith) p (rw same k)))

  module _ (ks : List PipelineId) where
    -- The search of a white node does not get stuck while there are fewer white nodes than levels.
    abbrev Suffices : ℕ → (PipelineId → Colors → Result VerifyError Colors) → Type 0
    Suffices fuel dfs =
        (n : PipelineId) (c : Colors)
        → In n ks
        → color_of n c ≡ 0
        → whites ks c ≤ fuel
        → dfs n c ≢ err VerifyError.stuck

    visit-Suffices :
        (fuel : ℕ) (dfs : PipelineId → Colors → Result VerifyError Colors)
        → DarkensAll dfs
        → Suffices fuel dfs
        → (node : PipelineId) (ns : List PipelineId) (c : Colors)
        → ((q : PipelineId) → In q ns → In q ks)
        → whites ks c ≤ fuel
        → visit dfs node ns c ≢ err VerifyError.stuck
    unfolding visit
    visit-Suffices fuel dfs d s node [] c known le h = absurd (cc h)
    visit-Suffices fuel dfs d s node (n ∷ ns) c known le h =
        let rest = λ (q : PipelineId) (i : In q ns). known q (later i) in
        elim (Bool-cases (color_of n c == 0)) [
          | inl white ↦ elim (Result-cases (dfs n c)) [
            | inl (c1, e) ↦
                visit-Suffices fuel dfs d s node ns c1 rest
                  (omega (arith, le, whites-Darkens ks c c1 (d n c c1 e))) (rw (white, e) at h)
            | inr (x, e) ↦
                let same : x ≡ VerifyError.stuck = cc (rw (white, e) at h) in
                s n c (known n (head refl)) (ground (arith, white)) le (rw same at e)
          ]
          | inr colored ↦ elim (Bool-cases (color_of n c == 1)) [
            | inl on_path ↦ absurd (cc (rw (colored, on_path) at h))
            | inr finished ↦
                visit-Suffices fuel dfs d s node ns c rest le (rw (colored, finished) at h)
          ]
        ]

    dfs_cycle-Suffices :
        ((p q : PipelineId) → In q (neighbors adj p) → In q ks)
        → (fuel : ℕ) → Suffices fuel (dfs_cycle adj fuel)
    unfolding dfs_cycle
    dfs_cycle-Suffices closed zero n c i white le h =
        absurd (omega (arith, le, whites-insert ks n c i white))
    dfs_cycle-Suffices closed (suc fuel) n c i white le h =
        let inner = visit (dfs_cycle adj fuel) n (neighbors adj n) (insert n 1 c) in
        elim (Result-cases inner) [
          | inl (c1, e) ↦ absurd (cc (rw e at h))
          | inr (x, e) ↦
              let same : x ≡ VerifyError.stuck = cc (rw e at h) in
              visit-Suffices fuel (dfs_cycle adj fuel) (dfs_cycle-Darkens fuel)
                (dfs_cycle-Suffices closed fuel) n (neighbors adj n) (insert n 1 c) (closed n)
                (omega (arith, le, whites-insert ks n c i white)) (rw same at e)
        ]

    search_all-Suffices :
        ((p q : PipelineId) → In q (neighbors adj p) → In q ks)
        → (fuel : ℕ) (starts : List PipelineId) (c : Colors)
        → ((q : PipelineId) → In q starts → In q ks)
        → whites ks c ≤ fuel
        → search_all adj fuel starts c ≢ err VerifyError.stuck
    unfolding search_all
    search_all-Suffices closed fuel [] c known le h = absurd (cc h)
    search_all-Suffices closed fuel (s ∷ starts) c known le h =
        let rest = λ (q : PipelineId) (i : In q starts). known q (later i) in
        elim (Bool-cases (color_of s c == 0)) [
          | inl white ↦ elim (Result-cases (dfs_cycle adj fuel s c)) [
            | inl (c1, e) ↦
                search_all-Suffices closed fuel starts c1 rest
                  (omega (arith, le, whites-Darkens ks c c1 (dfs_cycle-Darkens fuel s c c1 e)))
                  (rw (white, e) at h)
            | inr (x, e) ↦
                let same : x ≡ VerifyError.stuck = cc (rw (white, e) at h) in
                dfs_cycle-Suffices closed fuel s c (known s (head refl)) (ground (arith, white)) le
                  (rw same at e)
          ]
          | inr colored ↦ search_all-Suffices closed fuel starts c rest le (rw colored at h)
        ]

whites-le_length : (ks : List PipelineId) (c : Colors) → whites ks c ≤ length ks
unfolding whites
whites-le_length [] c = omega arith
whites-le_length (k ∷ ks) c = ground (arith, whites-le_length ks c)

length-keys : (ps : List (PipelineId × Pipeline)) → length (keys ps) ≡ length ps
length-keys [] = refl
length-keys (p ∷ ps) = ap suc (length-keys ps)

In-append {ℓ} : {A : Type ℓ} (a : A) (xs ys : List A) → In a (xs ++ ys) → In a xs ⊎ In a ys
In-append a [] ys i = inr i
In-append a (x ∷ xs) ys (head e) = inl (head e)
In-append a (x ∷ xs) ys (later i) = elim (In-append a xs ys i) [
  | inl j ↦ inl (later j)
  | inr j ↦ inr j
]

pipeline_targets-In :
    (reg : KernelRegistry) (hs : List HookId) (q : PipelineId)
    → In q (pipeline_targets reg hs)
    → (h : HookId) × In h hs × In q (jump_targets reg h)
unfolding pipeline_targets
pipeline_targets-In reg [] q i = elim i [ ]
pipeline_targets-In reg (h ∷ hs) q i =
    elim (In-append q (jump_targets reg h) (pipeline_targets reg hs) i) [
      | inl j ↦ (h, head refl, j)
      | inr j ↦ let (h', k, l) = pipeline_targets-In reg hs q j in (h', later k, l)
    ]

lookup-graph :
    (reg : KernelRegistry) (ps : List (PipelineId × Pipeline)) (p : PipelineId)
    {ts : List PipelineId}
    → lookup p (map (λ e. (e.0, pipeline_targets reg e.1.hooks)) ps) ≡ some ts
    → (pipeline : Pipeline) × (lookup p ps ≡ some pipeline)
      × (pipeline_targets reg pipeline.hooks ≡ ts)
lookup-graph reg [] p h = absurd (cc h)
lookup-graph reg ((k, v) ∷ ps) p h = elim (beq-cases k p) [
  | inl e ↦ (v, rw e.0 refl, cc (rw e.0 at h))
  | inr n ↦ let (w, found, j) = lookup-graph reg ps p (rw n.0 at h) in (w, rw n.0 found, j)
]

-- A neighbour in the graph is a target of a hook of the pipeline.
neighbors-In :
    (reg : KernelRegistry) (p q : PipelineId)
    → In q (neighbors (jump_graph reg) p)
    → (pipeline : Pipeline) × (lookup p reg.pipelines ≡ some pipeline)
      × In q (pipeline_targets reg pipeline.hooks)
unfolding jump_graph
neighbors-In reg p q i = elim (Option-cases (lookup p (jump_graph reg))) [
  | inl e ↦ elim (rw (neighbors, e) at i) [ ]
  | inr (ts, e) ↦
      let (pipeline, found, same) = lookup-graph reg reg.pipelines p e in
      (pipeline, found, subst (λ l. In q l) (sym same) (rw (neighbors, e) at i))
]

-- If all declared jump targets of the hooks in pipelines are registered, the search for jump cycles
-- ends with a verdict: the depth that it is given is enough.
pub check_jump_dag-ne-stuck :
    (reg : KernelRegistry)
    → check_jump_targets reg ≡ ok tt
    → check_jump_dag reg ≢ err VerifyError.stuck
unfolding check_jump_dag check_jump_targets jump_graph
check_jump_dag-ne-stuck reg targets h =
    let ks = keys reg.pipelines in
    elim (Result-cases (search_all (jump_graph reg) (length reg.pipelines + 1) ks [])) [
      | inl (c, e) ↦ absurd (cc (rw e at h))
      | inr (x, e) ↦
          let same : x ≡ VerifyError.stuck = cc (rw e at h) in
          search_all-Suffices (jump_graph reg) ks
            (λ p q i.
              let (pipeline, found, j) = neighbors-In reg p q i in
              let (hook, k, l) = pipeline_targets-In reg pipeline.hooks q j in
              In-keys q reg.pipelines
                (require-eq-ok _ _ (each-In _ l (each_pipeline_hook_at _ reg targets found k))))
            (length reg.pipelines + 1) ks [] (λ q i. i)
            (omega (arith, whites-le_length ks [], length-keys reg.pipelines)) (rw same at e)
    ]
