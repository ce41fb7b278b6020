-- ===== src/Pool/Tests.antt =====
-- A run of lib/mb-pool/src/lib.rs.
use meshbus_rs.Prelude.{true, text, List, [], ◌∷◌}
use meshbus_rs.Pool.{PoolStep, new_pool, pool_run}
use meshbus_rs.Pool.Owned.{IsOwned, pool_run-IsOwned}

-- A connection is made, given back and lent again.
abbrev steps : List PoolStep
steps =
    PoolStep.acquire_step (text "a:1")
    ∷ PoolStep.connect_step 0 true
    ∷ PoolStep.drop_step 0
    ∷ PoolStep.return_step 0
    ∷ PoolStep.time_step 3
    ∷ PoolStep.acquire_step (text "a:1")
    ∷ []

pool_run-IsOwned_example : IsOwned (pool_run (new_pool 2 10) steps)
pool_run-IsOwned_example = pool_run-IsOwned 2 10 steps
