-- ===== src/LoadBalance/Tests.antt =====
-- Picks among a few candidates.
use meshbus_rs.Prelude.{
  ℕ, ◌<◌, Text, text, List, [], ◌∷◌, some, In, head, later, ◌≡◌, refl, arith, length,
}
use meshbus_rs.LoadBalance.{Candidate, Wrr, Picked, wrr_pick, wrr_loop, total_weight, hash_pick}
use meshbus_rs.LoadBalance.Picks.{IsPick, hash_pick_total, wrr_pick_total, wrr_loop_spins}

abbrev weighted : Text → ℕ → Candidate
weighted id weight = record { id = id; weight = weight }

abbrev three : List Candidate
three = weighted (text "a") 0 ∷ weighted (text "b") 2 ∷ weighted (text "c") 0 ∷ []

abbrev weightless : List Candidate
weightless = weighted (text "a") 0 ∷ weighted (text "b") 0 ∷ []

-- The last state of `b`'s turn: the next pick goes all the way round.
abbrev turn_over : Wrr
turn_over = record { cands = three; cursor = 1; counter = 2 }

wrr_pick_total_example : (r : Picked) × (wrr_pick turn_over ≡ some r) × IsPick turn_over r
wrr_pick_total_example =
    wrr_pick_total turn_over 1 (weighted (text "b") 2) (omega arith) refl (omega arith)

has_weight : 0 < total_weight three
unfolding total_weight
has_weight = omega arith

hash_pick_total_example :
    (c : Candidate) × (hash_pick length three (text "key") ≡ some c) × In c three × (0 < c.weight)
hash_pick_total_example = hash_pick_total length three (text "key") has_weight

no_weight : (c : Candidate) → In c weightless → c.weight ≡ 0
no_weight c (head e) = rw e refl
no_weight c (later (head e)) = rw e refl
no_weight c (later (later i)) = elim i [ ]

wrr_loop_spins_example :
    wrr_loop 50 (record { cands = weightless; cursor = 0; counter = 0 }) ≡ Picked.stuck
wrr_loop_spins_example =
    wrr_loop_spins 50 (record { cands = weightless; cursor = 0; counter = 0 }) (omega arith)
      no_weight
