-- ===== src/Pool.antt =====
-- lib/mb-pool/src/lib.rs: idle connections by key. Connections are numbered as they are made, and a key
-- is a text. The tasks interleave at the lock, so that each step is what one task does under it.
use meshbus_rs.Prelude.{
  ℕ, zero, suc, ◌+◌, ◌-◌, ltb, Bool, true, false, if◌then◌else◌, Text, text_eq_inst, List, [], ◌∷◌,
  length, get_elem?, Option, none, some, lookup, insert, contains,
}
pub mod Owned
pub mod Tests

pub record PoolSlot : Type 0 where
  pub conn : ℕ
  pub last_used : ℕ

-- `inner` is the shared map, each stack with its top first; `lent` are the `Pooled` values that are alive,
-- `returning` the spawned tasks of those that were dropped, `waiting` the calls of `connect` in progress.
pub record PoolState : Type 0 where
  pub max_per_key : ℕ
  pub idle_timeout : ℕ
  pub inner : List (Text × List PoolSlot)
  pub lent : List (Text × ℕ)
  pub returning : List (Text × ℕ)
  pub waiting : List Text
  pub made : ℕ
  pub now : ℕ

unfoldable pub new_pool : ℕ → ℕ → PoolState
new_pool max_per_key idle_timeout = record {
  max_per_key = max_per_key;
  idle_timeout = idle_timeout;
  inner = [];
  lent = [];
  returning = [];
  waiting = [];
  made = 0;
  now = 0;
}

-- `while let Some(slot) = slots.pop()`: the slots that are too old are dropped.
unfoldable pub pop_fresh : ℕ → ℕ → List PoolSlot → Option ℕ × List PoolSlot
pop_fresh now timeout [] = (none, [])
pop_fresh now timeout (s ∷ slots) =
    let older = pop_fresh now timeout slots in
    if ltb (now - s.last_used) timeout then (some s.conn, slots) else older

abbrev pub slots_of : Option (List PoolSlot) → List PoolSlot
slots_of none = []
slots_of (some slots) = slots

lend : PoolState → Text → Option ℕ → PoolState
lend p key none = record p { waiting = key ∷ p.waiting }
lend p key (some c) = record p { lent = (key, c) ∷ p.lent }

acquire_from : PoolState → Text → Option (List PoolSlot) → PoolState
unfolding lend
acquire_from p key none = lend p key none
acquire_from p key (some slots) =
    let (found, rest) = pop_fresh p.now p.idle_timeout slots in
    lend (record p { inner = insert key rest p.inner }) key found

-- The part of `acquire` under the lock.
unfoldable pub acquire : PoolState → Text → PoolState
unfolding acquire_from
acquire p key = acquire_from p key (lookup key p.inner)

abbrev pub remove_at {ℓ} : {A : Type ℓ} → ℕ → List A → List A
remove_at i [] = []
remove_at zero (x ∷ xs) = xs
remove_at (suc i) (x ∷ xs) = x ∷ remove_at i xs

-- A call of `connect` ends; with a connection, it is lent.
unfoldable pub connect_done : PoolState → ℕ → Bool → PoolState
connect_done p i succeeded = elim (get_elem? p.waiting i) [
  | none ↦ p
  | some key ↦
      if succeeded
      then record p {
        waiting = remove_at i p.waiting;
        lent = (key, p.made) ∷ p.lent;
        made = p.made + 1;
      }
      else record p { waiting = remove_at i p.waiting }
]

-- `drop` of a `Pooled` value spawns a task.
unfoldable pub drop_pooled : PoolState → ℕ → PoolState
drop_pooled p i = elim (get_elem? p.lent i) [
  | none ↦ p
  | some h ↦ record p { lent = remove_at i p.lent; returning = h ∷ p.returning }
]

put_back : PoolState → Text × ℕ → PoolState
put_back p h =
    let slots = slots_of (lookup h.0 p.inner) in
    let top : PoolSlot = record { conn = h.1; last_used = p.now } in
    if ltb (length slots) p.max_per_key
    then record p { inner = insert h.0 (top ∷ slots) p.inner }
    else record p { inner = insert h.0 slots p.inner }

-- The task runs.
unfoldable pub return_pooled : PoolState → ℕ → PoolState
unfolding put_back
return_pooled p i = elim (get_elem? p.returning i) [
  | none ↦ p
  | some h ↦ put_back (record p { returning = remove_at i p.returning }) h
]

pub data PoolStep : Type 0 where
  acquire_step : Text → PoolStep
  connect_step : ℕ → Bool → PoolStep
  drop_step return_step : ℕ → PoolStep
  time_step : ℕ → PoolStep

unfoldable pub pool_step : PoolState → PoolStep → PoolState
pool_step p (PoolStep.acquire_step key) = acquire p key
pool_step p (PoolStep.connect_step i succeeded) = connect_done p i succeeded
pool_step p (PoolStep.drop_step i) = drop_pooled p i
pool_step p (PoolStep.return_step i) = return_pooled p i
pool_step p (PoolStep.time_step n) = record p { now = p.now + n }

unfoldable pub pool_run : PoolState → List PoolStep → PoolState
pool_run p [] = p
pool_run p (s ∷ steps) = pool_run (pool_step p s) steps
