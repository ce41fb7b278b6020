-- ===== src/LoadBalance/Picks.antt =====
-- Which candidates lib/mb-loadbalance/src/lib.rs picks, and that it does.
use meshbus_rs.Prelude.{ℕ, zero, suc, ◌+◌, ◌-◌, ◌%◌, ◌<◌, ltb, ◌==◌, Text, false, List, [], ◌∷◌}
use meshbus_rs.Prelude.{
  some, length, get_elem?, is_empty, In, head, later, Bool-cases, ◌≡◌, refl, arith, inl, inr, ◌⊎◌,
  subst,
}
use native.Mathlib.Decide.{dec_le}
use native.Mathlib.Nat.{mod-lt, mod-eq_of_lt, mod_self}
use meshbus_rs.LoadBalance.{
  Candidate, Wrr, next_candidate, Picked, wrr_round, wrr_loop, wrr_pick, total_weight, pick_bucket,
  hash_pick,
}

pick_bucket_total :
    (bucket : ℕ) (cs : List Candidate)
    → bucket < total_weight cs
    → (c : Candidate) × (pick_bucket bucket cs ≡ some c) × In c cs × (0 < c.weight)
unfolding pick_bucket total_weight
pick_bucket_total bucket [] h = absurd (omega (arith, h))
pick_bucket_total bucket (c ∷ cs) h = elim (Bool-cases (ltb bucket c.weight)) [
  | inl y ↦ rw y (c, refl, head refl, ground (arith, y))
  | inr n ↦
      let (d, e, i, p) = pick_bucket_total (bucket - c.weight) cs (ground (arith, n, h)) in
      rw n (d, e, later i, p)
]

-- Whatever the hash function, a key is given a candidate of positive weight whenever there is one.
pub hash_pick_total :
    (hash : Text → ℕ) (cands : List Candidate) (key : Text)
    → 0 < total_weight cands
    → (c : Candidate) × (hash_pick hash cands key ≡ some c) × In c cands × (0 < c.weight)
unfolding hash_pick
hash_pick_total hash [] key h = absurd (omega (arith, h))
hash_pick_total hash (c ∷ cs) key h =
    let zeros : (total_weight (c ∷ cs) == 0) ≡ false = ground (arith, h) in
    let found =
      pick_bucket_total (hash key % total_weight (c ∷ cs)) (c ∷ cs) (mod-lt (hash key) h) in
    rw zeros found

at_index :
    (cs : List Candidate) (i : ℕ)
    → i < length cs
    → (c : Candidate) × (get_elem? cs i ≡ some c) × In c cs
at_index [] i h = absurd (omega (arith, h))
at_index (c ∷ cs) zero h = (c, refl, head refl)
at_index (c ∷ cs) (suc i) h = let (d, e, j) = at_index cs i (omega (arith, h)) in (d, e, later j)

-- The cursor is on a candidate.
abbrev pub IsReady : Wrr → Type 0
IsReady w = w.cursor < length w.cands

-- A candidate of positive weight was picked, and the next state is ready, over the same candidates.
abbrev pub IsPick : Wrr → Picked → Type 0
IsPick w r =
    (c : Candidate) × (w' : Wrr) × (r ≡ Picked.picked c w')
    × In c w.cands
    × (0 < c.weight)
    × (w'.cands ≡ w.cands)
    × IsReady w'

-- The state after one candidate: the cursor has moved on by one, or to the front.
next_cursor :
    (w : Wrr) (n : ℕ)
    → n ≡ length w.cands
    → IsReady w
    → ((w.cursor + 1 < n) × ((next_candidate w).cursor ≡ w.cursor + 1))
      ⊎ ((w.cursor + 1 ≡ n) × ((next_candidate w).cursor ≡ 0))
unfolding next_candidate
next_cursor w n e h = elim (Bool-cases (ltb (w.cursor + 1) n)) [
  | inl y ↦ inl (
    ground (arith, y),
    subst (λ m. (w.cursor + 1) % m ≡ w.cursor + 1) e (mod-eq_of_lt (ground (arith, y))),
  )
  | inr stop ↦
      let last : w.cursor + 1 ≡ n = ground (arith, stop, e, h) in
      inr (last, subst (λ m. (w.cursor + 1) % m ≡ 0) e (rw last (mod_self n)))
]

round-IsPick :
    (w : Wrr) (c : Candidate) (rest : Picked)
    → get_elem? w.cands w.cursor ≡ some c
    → In c w.cands
    → IsReady w
    → (ltb w.counter c.weight ≡ false → IsPick w rest)
    → IsPick w (wrr_round w (get_elem? w.cands w.cursor) rest)
unfolding wrr_round
round-IsPick w c rest e i h k = elim (Bool-cases (ltb w.counter c.weight)) [
  | inl y ↦ rw (e, y) (c, record w { counter = w.counter + 1 }, refl, i, ground (arith, y), refl, h)
  | inr n ↦ rw (e, n) (k n)
]

next_distance :
    (w : Wrr) (d j : ℕ)
    → IsReady w
    → j < length w.cands
    → ((w.cursor + 1 < length w.cands) × ((next_candidate w).cursor ≡ w.cursor + 1))
      ⊎ ((w.cursor + 1 ≡ length w.cands) × ((next_candidate w).cursor ≡ 0))
    → (w.cursor + suc d ≡ j) ⊎ (w.cursor + suc d ≡ length w.cands + j)
    → ((next_candidate w).cursor + d ≡ j) ⊎ ((next_candidate w).cursor + d ≡ length w.cands + j)
next_distance w d j ready within (inl (more, at)) (inl dist) = inl (omega (arith, at, dist))
next_distance w d j ready within (inl (more, at)) (inr dist) = inr (omega (arith, at, dist))
next_distance w d j ready within (inr (last, at)) (inl dist) =
    absurd (omega (arith, last, dist, within))
next_distance w d j ready within (inr (last, at)) (inr dist) = inl (omega (arith, at, last, dist))

-- From a fresh cursor, the candidate `d` places on is reached.
loop_reaches :
    (d fuel : ℕ) (w : Wrr) (j : ℕ) (c : Candidate)
    → d < fuel
    → w.counter ≡ 0
    → IsReady w
    → get_elem? w.cands j ≡ some c
    → 0 < c.weight
    → j < length w.cands
    → (w.cursor + d ≡ j) ⊎ (w.cursor + d ≡ length w.cands + j)
    → IsPick w (wrr_loop fuel w)
unfolding wrr_loop next_candidate
loop_reaches d zero w j c less fresh ready there positive within dist = absurd (omega (arith, less))
loop_reaches zero (suc fuel) w j c less fresh ready there positive within dist =
    let same : j ≡ w.cursor = ground (arith, dist, ready) in
    let here = subst (λ i. get_elem? w.cands i ≡ some c) same there in
    let (b, e, i) = at_index w.cands w.cursor ready in
    let b_is : b ≡ c = cc (e, here) in
    round-IsPick w c (wrr_loop fuel (next_candidate w)) here (subst (λ t. In t w.cands) b_is i)
      ready (λ spent. absurd (ground (arith, spent, fresh, positive)))
loop_reaches (suc d) (suc fuel) w j c less fresh ready there positive within dist =
    let (b, e, i) = at_index w.cands w.cursor ready in
    let moved = next_cursor w (length w.cands) refl ready in
    round-IsPick w b (wrr_loop fuel (next_candidate w)) e i ready (λ _.
      loop_reaches d fuel (next_candidate w) j c (omega (arith, less)) refl
        (ground (arith, moved, ready)) there positive within
        (next_distance w d j ready within moved dist))

index_within :
    (cs : List Candidate) (j : ℕ) {c : Candidate} → get_elem? cs j ≡ some c → j < length cs
index_within [] j h = absurd (cc h)
index_within (c ∷ cs) zero h = omega arith
index_within (c ∷ cs) (suc j) h = omega (arith, index_within cs j h)

not_empty : (cs : List Candidate) (i : ℕ) → i < length cs → is_empty cs ≡ false
not_empty [] i h = absurd (omega (arith, h))
not_empty (c ∷ cs) i h = refl

loop_picks :
    (fuel : ℕ) (w : Wrr) (j : ℕ) (c : Candidate)
    → length w.cands < fuel
    → IsReady w
    → get_elem? w.cands j ≡ some c
    → 0 < c.weight
    → IsPick w (wrr_loop fuel w)
unfolding wrr_loop next_candidate
loop_picks zero w j c enough ready there positive = absurd (omega (arith, enough))
loop_picks (suc fuel) w j c enough ready there positive =
    let (b, e, i) = at_index w.cands w.cursor ready in
    let moved = next_cursor w (length w.cands) refl ready in
    let within = index_within w.cands j there in
    let at = (next_candidate w).cursor in
    let ready' : at < length w.cands = ground (arith, moved, ready) in
    round-IsPick w b (wrr_loop fuel (next_candidate w)) e i ready (λ _. elim (dec_le at j) [
      | yes le ↦
          loop_reaches (j - at) fuel (next_candidate w) j c (omega (arith, enough, within)) refl
            ready' there positive within (inl (omega (arith, le)))
      | no gt ↦
          loop_reaches (length w.cands + j - at) fuel (next_candidate w) j c
            (omega (arith, enough, gt, ready')) refl ready' there positive within
            (inr (omega (arith, gt, ready')))
    ])

-- If a candidate has a weight, a pick returns one that has, within the rounds given, whatever the
-- cursor and the counter, and leaves the cursor on a candidate.
pub wrr_pick_total :
    (w : Wrr) (j : ℕ) (c : Candidate)
    → IsReady w
    → get_elem? w.cands j ≡ some c
    → 0 < c.weight
    → (r : Picked) × (wrr_pick w ≡ some r) × IsPick w r
unfolding wrr_pick
wrr_pick_total w j c ready there positive = (
  wrr_loop (length w.cands + 1) w,
  rw (not_empty w.cands w.cursor ready) refl,
  loop_picks (length w.cands + 1) w j c (omega arith) ready there positive,
)

-- If there are candidates and none has a weight, a pick does not return, however many rounds it is
-- given.
pub wrr_loop_spins :
    (fuel : ℕ) (w : Wrr)
    → IsReady w
    → ((c : Candidate) → In c w.cands → c.weight ≡ 0)
    → wrr_loop fuel w ≡ Picked.stuck
unfolding wrr_loop wrr_round next_candidate
wrr_loop_spins zero w ready weightless = refl
wrr_loop_spins (suc fuel) w ready weightless =
    let (b, e, i) = at_index w.cands w.cursor ready in
    let ready' : (next_candidate w).cursor < length w.cands =
      ground (arith, next_cursor w (length w.cands) refl ready, ready) in
    let no_room : ltb w.counter b.weight ≡ false = ground (arith, weightless b i) in
    rw (e, no_room) (wrr_loop_spins fuel (next_candidate w) ready' weightless)
