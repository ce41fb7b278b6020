-- ===== src/Kernel/Registry/JumpDag.antt =====
-- `_check_jump_dag` and `_dfs_cycle` of kernel/registry/data_handle.rs: a search in three colours
-- over the declared jumps.
use meshbus_rs.Prelude.{ℕ, zero, suc, ◌+◌, ◌==◌, Text, text_eq_inst, List, [], ◌∷◌, ◌++◌, length}
use meshbus_rs.Prelude.{none, some, Result, ok, err, ◌>>=◌, lookup, insert, keys, map}
use meshbus_rs.Prelude.{if◌then◌else◌}
use meshbus_rs.Kernel.Types.{PipelineId, KernelRegistry}
use meshbus_rs.Kernel.Registry.Errors.{VerifyError, Verified}
use meshbus_rs.Kernel.Registry.Checks.{jump_targets}

abbrev pub Adjacency : Type 0
Adjacency = List (PipelineId × List PipelineId)

abbrev pub Colors : Type 0
Colors = List (PipelineId × ℕ)

-- A node that was not met is white, 0; 1 is on the path of the search, 2 is done.
abbrev pub color_of : PipelineId → Colors → ℕ
color_of p c = elim (lookup p c) [ none ↦ 0 | some k ↦ k ]

abbrev pub neighbors : Adjacency → PipelineId → List PipelineId
neighbors adj p = elim (lookup p adj) [ none ↦ [] | some ts ↦ ts ]

-- The loop over a node's neighbours; `dfs` searches from a white one.
unfoldable pub visit :
    (PipelineId → Colors → Result VerifyError Colors)
    → PipelineId
    → List PipelineId
    → Colors
    → Result VerifyError Colors
visit dfs node [] color = ok color
visit dfs node (n ∷ ns) color =
    let searched = dfs n color >>= visit dfs node ns in
    let skipped = visit dfs node ns color in
    if color_of n color == 0
    then searched
    else if color_of n color == 1
    then err (VerifyError.jump_cycle node)
    else skipped

-- The fuel bounds the depth of the recursion.
unfoldable pub dfs_cycle : Adjacency → ℕ → PipelineId → Colors → Result VerifyError Colors
dfs_cycle adj zero node color = err VerifyError.stuck
dfs_cycle adj (suc fuel) node color = do
  color' ← visit (dfs_cycle adj fuel) node (neighbors adj node) (insert node 1 color)
  ok (insert node 2 color')

unfoldable pub pipeline_targets : KernelRegistry → List Text → List PipelineId
pipeline_targets reg [] = []
pipeline_targets reg (h ∷ hs) = jump_targets reg h ++ pipeline_targets reg hs

unfoldable pub jump_graph : KernelRegistry → Adjacency
jump_graph reg = map (λ e. (e.0, pipeline_targets reg e.1.hooks)) reg.pipelines

unfoldable pub search_all : Adjacency → ℕ → List PipelineId → Colors → Result VerifyError Colors
search_all adj fuel [] color = ok color
search_all adj fuel (start ∷ starts) color =
    let searched = dfs_cycle adj fuel start color >>= search_all adj fuel starts in
    let skipped = search_all adj fuel starts color in
    if color_of start color == 0 then searched else skipped

-- Each call of the search colours one more node of the graph, so the number of nodes bounds the
-- depth.
unfoldable pub check_jump_dag : KernelRegistry → Verified
check_jump_dag reg = do
  colored ← search_all (jump_graph reg) (length reg.pipelines + 1) (keys reg.pipelines) []
  ok tt
