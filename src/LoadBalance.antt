-- ===== src/LoadBalance.antt =====
-- lib/mb-loadbalance/src/lib.rs: the weighted round robin and the consistent hash. A pick is the
-- candidate, of which the code returns the id.
use meshbus_rs.Prelude.{
  ℕ, zero, suc, ◌+◌, ◌-◌, ◌*◌, ◌%◌, ltb, ◌==◌, Text, Bool, true, false, List, [], ◌∷◌,
}
use meshbus_rs.Prelude.{Option, none, some, length, get_elem?, is_empty, if◌then◌else◌}
pub mod Picks
mod Tests

pub record Candidate : Type 0 where
  pub id : Text
  pub weight : ℕ

pub record Wrr : Type 0 where
  pub cands : List Candidate
  pub cursor : ℕ
  pub counter : ℕ

unfoldable pub new_wrr : List Candidate → Wrr
new_wrr cands = record { cands = cands; cursor = 0; counter = 0 }

unfoldable pub next_candidate : Wrr → Wrr
next_candidate w = record w { cursor = (w.cursor + 1) % length w.cands; counter = 0 }

-- The `loop` of `pick`, by the rounds left; `stuck` when none is left, and `none` if the cursor is
-- out of range.
pub data Picked : Type 0 where
  picked : Candidate → Wrr → Picked
  stuck panicked : Picked

-- One round, on the candidate at the cursor; `rest` is the rounds that follow.
unfoldable pub wrr_round : Wrr → Option Candidate → Picked → Picked
wrr_round w none rest = panicked
wrr_round w (some c) rest =
    if ltb w.counter c.weight then picked c (record w { counter = w.counter + 1 }) else rest

unfoldable pub wrr_loop : ℕ → Wrr → Picked
unfolding wrr_round next_candidate
wrr_loop zero w = stuck
wrr_loop (suc fuel) w =
    let rest = wrr_loop fuel (next_candidate w) in wrr_round w (get_elem? w.cands w.cursor) rest

-- `None` for no candidates; else the loop, for which each candidate and the first one once more
-- are enough rounds, if any candidate has a weight.
unfoldable pub wrr_pick : Wrr → Option Picked
unfolding wrr_loop
wrr_pick w = if is_empty w.cands then none else some (wrr_loop (length w.cands + 1) w)

unfoldable pub total_weight : List Candidate → ℕ
total_weight [] = 0
total_weight (c ∷ cs) = c.weight + total_weight cs

-- `for c in &self.cands`
unfoldable pub pick_bucket : ℕ → List Candidate → Option Candidate
pick_bucket bucket [] = none
pick_bucket bucket (c ∷ cs) =
    let rest = pick_bucket (bucket - c.weight) cs in if ltb bucket c.weight then some c else rest

-- `hash` is the hasher on the key's bytes.
unfoldable pub hash_pick : (Text → ℕ) → List Candidate → Text → Option Candidate
unfolding total_weight pick_bucket
hash_pick hash cands key =
    if is_empty cands
    then none
    else if total_weight cands == 0
    then none
    else pick_bucket (hash key % total_weight cands) cands
