-- ===== src/Kernel/Registry/Acyclic.antt =====
-- What the search for jump cycles of kernel/registry/data_handle.rs finds: a graph that it accepts has
-- no cycle, and it never runs out of the depth that it is given.
use meshbus_rs.Prelude.{ℕ, zero, suc, ◌==◌, text_eq_inst, List, [], ◌∷◌}
use mathlib.Core.WellFounded.{Acc}
use meshbus_rs.Prelude.{◌≤◌, Result, ok, insert, lookup-insert, beq-cases}
use meshbus_rs.Prelude.{
  >>=-eq-ok, if◌then◌else◌, In, head, later, Bool-cases, ◌≡◌, ◌≢◌, refl, sym, subst, inl, inr,
  arith, nat_eq,
}
use meshbus_rs.Kernel.Types.{PipelineId}
use meshbus_rs.Kernel.Registry.Errors.{VerifyError}
use meshbus_rs.Kernel.Registry.JumpDag.{
  Adjacency, Colors, color_of, neighbors, visit, dfs_cycle, search_all,
}

-- A node's declared jumps.
abbrev pub Jumps : Adjacency → PipelineId → PipelineId → Type 0
Jumps adj q p = In q (neighbors adj p)

pub color_of-insert :
    (p q : PipelineId) (k : ℕ) (c : Colors)
    → color_of q (insert p k c) ≡ (if text_eq_inst.beq p q then k else color_of q c)
color_of-insert p q k c =
    rw (color_of, lookup-insert p q k c)
      (elim (Bool-cases (text_eq_inst.beq p q)) [ inl y ↦ rw y refl | inr n ↦ rw n refl ])

module _ (adj : Adjacency) where
  -- The nodes that are done are grounded.
  abbrev pub DoneGrounded : Colors → Type 0
  DoneGrounded c = (p : PipelineId) → 2 ≤ color_of p c → Acc (Jumps adj) p

  -- What a search of one node promises: what is done stays grounded, no node is left on the path, and
  -- the node is grounded.
  record Searched (node : PipelineId) (c c' : Colors) : Type 0 where
    done : DoneGrounded c'
    no_path : (p : PipelineId) → color_of p c' ≡ 1 → color_of p c ≡ 1
    node_grounded : Acc (Jumps adj) node

  abbrev Searches : (PipelineId → Colors → Result VerifyError Colors) → Type 0
  Searches dfs =
      (n : PipelineId) (c c' : Colors) → DoneGrounded c → dfs n c ≡ ok c' → Searched n c c'

  record Visited (ns : List PipelineId) (c c' : Colors) : Type 0 where
    done : DoneGrounded c'
    no_path : (p : PipelineId) → color_of p c' ≡ 1 → color_of p c ≡ 1
    all_grounded : (q : PipelineId) → In q ns → Acc (Jumps adj) q

  cons_all :
      (n : PipelineId) (ns : List PipelineId)
      → Acc (Jumps adj) n
      → ((q : PipelineId) → In q ns → Acc (Jumps adj) q)
      → (q : PipelineId) → In q (n ∷ ns)
      → Acc (Jumps adj) q
  cons_all n ns a h q (head e) = subst (λ t. Acc (Jumps adj) t) (sym e) a
  cons_all n ns a h q (later i) = h q i

  visit-Visited :
      (dfs : PipelineId → Colors → Result VerifyError Colors)
      → Searches dfs
      → (node : PipelineId) (ns : List PipelineId) (c c' : Colors) → DoneGrounded c
      → visit dfs node ns c ≡ ok c'
      → Visited ns c c'
  unfolding visit
  visit-Visited dfs s node [] c c' d h =
      let e : c ≡ c' = cc h in
      subst (λ t. Visited [] c t) e
        (record { done = d; no_path = λ p k. k; all_grounded = λ q i. elim i [ ] })
  visit-Visited dfs s node (n ∷ ns) c c' d h = elim (Bool-cases (color_of n c == 0)) [
    | inl white ↦
        let (c1, e, rest) = >>=-eq-ok (dfs n c) (rw white at h) in
        let found = s n c c1 d e in
        let more = visit-Visited dfs s node ns c1 c' found.done rest in
        record {
          done = more.done;
          no_path = λ p k. found.no_path p (more.no_path p k);
          all_grounded = cons_all n ns found.node_grounded more.all_grounded;
        }
    | inr colored ↦ elim (Bool-cases (color_of n c == 1)) [
      | inl on_path ↦ absurd (cc (rw (colored, on_path) at h))
      | inr finished ↦
          let more = visit-Visited dfs s node ns c c' d (rw (colored, finished) at h) in
          record {
            done = more.done;
            no_path = more.no_path;
            all_grounded =
                cons_all n ns (d n (ground (arith, colored, finished))) more.all_grounded;
          }
    ]
  ]

  started : (node : PipelineId) (c : Colors) → DoneGrounded c → DoneGrounded (insert node 1 c)
  started node c d p h = elim (beq-cases node p) [
    | inl e ↦ absurd (ground (arith, h, color_of-insert node p 1 c, e.0))
    | inr n ↦ d p (ground (arith, h, color_of-insert node p 1 c, n.0))
  ]

  finish :
      (node : PipelineId) (c c' : Colors)
      → Visited (neighbors adj node) (insert node 1 c) c'
      → Searched node c (insert node 2 c')
  finish node c c' v =
      let grounded : Acc (Jumps adj) node = Acc.intro node v.all_grounded in
      record {
        done = λ p h. elim (beq-cases node p) [
          | inl e ↦ subst (λ t. Acc (Jumps adj) t) e.1 grounded
          | inr n ↦ v.done p (ground (arith, h, color_of-insert node p 2 c', n.0))
        ];
        no_path = λ p h. elim (beq-cases node p) [
          | inl e ↦ absurd (ground (arith, h, color_of-insert node p 2 c', e.0))
          | inr n ↦
              ground (
                arith,
                n.0,
                h,
                color_of-insert node p 2 c',
                color_of-insert node p 1 c,
                v.no_path p,
              )
        ];
        node_grounded = grounded;
      }

  dfs_cycle-Searches : (fuel : ℕ) → Searches (dfs_cycle adj fuel)
  unfolding dfs_cycle
  dfs_cycle-Searches zero node c c' d h = absurd (cc h)
  dfs_cycle-Searches (suc fuel) node c c' d h =
      let (c1, e, last) =
        >>=-eq-ok (visit (dfs_cycle adj fuel) node (neighbors adj node) (insert node 1 c)) h in
      let same : insert node 2 c1 ≡ c' = cc last in
      subst (λ t. Searched node c t) same
        (finish node c c1 (
          visit-Visited (dfs_cycle adj fuel) (dfs_cycle-Searches fuel) node (neighbors adj node)
            (insert node 1 c) c1 (started node c d) e))

  pub search_all_grounded :
      (fuel : ℕ) (starts : List PipelineId) (c c' : Colors)
      → DoneGrounded c
      → ((p : PipelineId) → color_of p c ≢ 1)
      → search_all adj fuel starts c ≡ ok c'
      → (p : PipelineId) → In p starts
      → Acc (Jumps adj) p
  unfolding search_all
  search_all_grounded fuel [] c c' d none_on h = λ p i. elim i [ ]
  search_all_grounded fuel (s ∷ starts) c c' d none_on h = elim (Bool-cases (color_of s c == 0)) [
    | inl white ↦
        let (c1, e, rest) = >>=-eq-ok (dfs_cycle adj fuel s c) (rw white at h) in
        let found = dfs_cycle-Searches fuel s c c1 d e in
        cons_all s starts found.node_grounded (
          search_all_grounded fuel starts c1 c' found.done (λ p k. none_on p (found.no_path p k))
            rest)
    | inr colored ↦
        cons_all s starts (d s (ground (arith, colored, none_on s)))
          (search_all_grounded fuel starts c c' d none_on (rw colored at h))
  ]
