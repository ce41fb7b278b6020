-- ===== src/Pool/Owned.antt =====
-- That a connection of lib/mb-pool/src/lib.rs has one owner at a time.
use meshbus_rs.Prelude.{Bool}
use meshbus_rs.Prelude.{
  ℕ, zero, suc, ◌+◌, ◌-◌, ◌≡◌, ◌≤◌, ◌==◌, refl, arith, inl, inr, Bool-cases, Option-cases,
  beq-cases, ltb, if◌then◌else◌, Text, text_eq_inst, List, [], ◌∷◌, length, get_elem?, Option, none,
  some, lookup, insert,
}
use meshbus_rs.Pool.{
  PoolSlot, PoolState, PoolStep, new_pool, pop_fresh, slots_of, lend, acquire_from, acquire,
  remove_at, connect_done, drop_pooled, put_back, return_pooled, pool_step, pool_run,
}

-- How often a connection stands in a stack, among handles, and in the shared map.
abbrev pub in_slots : ℕ → List PoolSlot → ℕ
in_slots c [] = 0
in_slots c (s ∷ slots) = (if s.conn == c then 1 else 0) + in_slots c slots

abbrev pub in_handles : ℕ → List (Text × ℕ) → ℕ
in_handles c [] = 0
in_handles c (h ∷ hs) = (if h.1 == c then 1 else 0) + in_handles c hs

abbrev pub in_map : ℕ → List (Text × List PoolSlot) → ℕ
in_map c [] = 0
in_map c (e ∷ m) = in_slots c e.1 + in_map c m

abbrev pub owners : ℕ → PoolState → ℕ
owners c p = in_map c p.inner + in_handles c p.lent + in_handles c p.returning

in_map-insert :
    (c : ℕ) (k : Text) (v : List PoolSlot) (m : List (Text × List PoolSlot))
    → in_map c (insert k v m) + in_slots c (slots_of (lookup k m)) ≡ in_map c m + in_slots c v
in_map-insert c k v [] = omega arith
in_map-insert c k v ((j, w) ∷ m) = elim (beq-cases j k) [
  | inl (e, _) ↦ rw (e) (omega arith)
  | inr (e, _) ↦ rw (e) (omega (arith, in_map-insert c k v m))
]

in_handles-remove_at :
    (c i : ℕ) (hs : List (Text × ℕ)) (h : Text × ℕ)
    → get_elem? hs i ≡ some h
    → in_handles c hs ≡ (if h.1 == c then 1 else 0) + in_handles c (remove_at i hs)
in_handles-remove_at c i [] h e = absurd (cc e)
in_handles-remove_at c zero (x ∷ xs) h e = let q : x ≡ h = cc in rw (q) refl
in_handles-remove_at c (suc i) (x ∷ xs) h e = omega (arith, in_handles-remove_at c i xs h e)

found_count : ℕ → Option ℕ → ℕ
found_count c none = 0
found_count c (some d) = if d == c then 1 else 0

in_slots-pop_fresh :
    (c now timeout : ℕ) (slots : List PoolSlot)
    → found_count c (pop_fresh now timeout slots).0 + in_slots c (pop_fresh now timeout slots).1
      ≤ in_slots c slots
unfolding pop_fresh found_count
in_slots-pop_fresh c now timeout [] = omega arith
in_slots-pop_fresh c now timeout (s ∷ slots) = elim (Bool-cases (ltb (now - s.last_used) timeout)) [
  | inl e ↦ rw (e) (omega arith)
  | inr e ↦ let ih = in_slots-pop_fresh c now timeout slots in rw (e) (omega (arith, ih))
]

owners-lend :
    (c : ℕ) (p : PoolState) (key : Text) (found : Option ℕ)
    → (owners c (lend p key found) ≡ found_count c found + owners c p)
      × ((lend p key found).made ≡ p.made)
unfolding lend found_count
owners-lend c p key none = (omega arith, refl)
owners-lend c p key (some d) = (omega arith, refl)

owners-acquire :
    (c : ℕ) (p : PoolState) (key : Text)
    → (owners c (acquire p key) ≤ owners c p) × ((acquire p key).made ≡ p.made)
unfolding acquire acquire_from
owners-acquire c p key = elim (Option-cases (lookup key p.inner)) [
  | inl e ↦
      let (k, q) = owners-lend c p key none in rw (e) (unfold found_count in omega (arith, k), q)
  | inr (slots, e) ↦
      let rest = (pop_fresh p.now p.idle_timeout slots).1 in
      let found = (pop_fresh p.now p.idle_timeout slots).0 in
      let t : PoolState = record p { inner = insert key rest p.inner } in
      let (k, q) = owners-lend c t key found in
      let i = in_slots-pop_fresh c p.now p.idle_timeout slots in
      let m : in_map c (insert key rest p.inner) + in_slots c slots
          ≡ in_map c p.inner + in_slots c rest =
        rw (e) at (in_map-insert c key rest p.inner) in
      rw (e) (omega (arith, k, i, m), q)
]

owners-drop :
    (c : ℕ) (p : PoolState) (i : ℕ)
    → (owners c (drop_pooled p i) ≡ owners c p) × ((drop_pooled p i).made ≡ p.made)
unfolding drop_pooled
owners-drop c p i = elim (Option-cases (get_elem? p.lent i)) [
  | inl e ↦ rw (e, drop_pooled) (refl, refl)
  | inr (h, e) ↦ rw (e, drop_pooled) (omega (arith, in_handles-remove_at c i p.lent h e), refl)
]

owners-put_back :
    (c : ℕ) (p : PoolState) (h : Text × ℕ)
    → (owners c (put_back p h) ≤ (if h.1 == c then 1 else 0) + owners c p)
      × ((put_back p h).made ≡ p.made)
unfolding put_back
owners-put_back c p h =
    let slots = slots_of (lookup h.0 p.inner) in
    let top : PoolSlot = record { conn = h.1; last_used = p.now } in
    let kept = in_map-insert c h.0 slots p.inner in
    let pushed = in_map-insert c h.0 (top ∷ slots) p.inner in
    elim (Bool-cases (ltb (length slots) p.max_per_key)) [
      | inl e ↦ rw (e) (omega (arith, pushed), refl)
      | inr e ↦ rw (e) (omega (arith, kept), refl)
    ]

owners-return :
    (c : ℕ) (p : PoolState) (i : ℕ)
    → (owners c (return_pooled p i) ≤ owners c p) × ((return_pooled p i).made ≡ p.made)
unfolding return_pooled
owners-return c p i = elim (Option-cases (get_elem? p.returning i)) [
  | inl e ↦ rw (e, return_pooled) (omega arith, refl)
  | inr (h, e) ↦
      let t : PoolState = record p { returning = remove_at i p.returning } in
      let (k, q) = owners-put_back c t h in
      rw (e, return_pooled) (omega (arith, k, in_handles-remove_at c i p.returning h e), q)
]

-- No connection has two owners, and those that are not made yet have none.
abbrev pub IsOwned : PoolState → Type 0
IsOwned p = (c : ℕ) → (owners c p ≤ 1) × (p.made ≤ c → owners c p ≡ 0)

connect-IsOwned :
    (p : PoolState) (i : ℕ) (succeeded : Bool) → IsOwned p → IsOwned (connect_done p i succeeded)
unfolding connect_done
connect-IsOwned p i succeeded h c = elim (Option-cases (get_elem? p.waiting i)) [
  | inl e ↦ rw (e, connect_done) (h c)
  | inr (key, e) ↦ elim (Bool-cases succeeded) [
    | inr f ↦ rw (e, f, connect_done) (h c)
    | inl f ↦ let (k, l) = h c in rw (e, f, connect_done) (ground (arith, k, l))
  ]
]

kept-IsOwned :
    (p q : PoolState)
    → ((c : ℕ) → (owners c q ≤ owners c p) × (q.made ≡ p.made))
    → IsOwned p
    → IsOwned q
kept-IsOwned p q h k c =
    let (a, b) = h c in
    let (d, e) = k c in (omega (arith, a, d), λ f. omega (arith, a, e (omega (arith, f, b))))

pool_step-IsOwned : (p : PoolState) (s : PoolStep) → IsOwned p → IsOwned (pool_step p s)
unfolding pool_step
pool_step-IsOwned p (PoolStep.acquire_step key) h =
    kept-IsOwned p (acquire p key) (λ c. owners-acquire c p key) h
pool_step-IsOwned p (PoolStep.connect_step i succeeded) h = connect-IsOwned p i succeeded h
pool_step-IsOwned p (PoolStep.drop_step i) h =
    kept-IsOwned p (drop_pooled p i) (λ c. let (k, q) = owners-drop c p i in (omega (arith, k), q))
      h
pool_step-IsOwned p (PoolStep.return_step i) h =
    kept-IsOwned p (return_pooled p i) (λ c. owners-return c p i) h
pool_step-IsOwned p (PoolStep.time_step n) h = h

from_pool : (steps : List PoolStep) (p : PoolState) → IsOwned p → IsOwned (pool_run p steps)
unfolding pool_run
from_pool [] p h = h
from_pool (s ∷ steps) p h = from_pool steps (pool_step p s) (pool_step-IsOwned p s h)

-- However acquisitions, ends of `connect`, drops, returning tasks and the passing of time interleave, a
-- connection is lent to one user, or on its way back, or idle in one place, never two of these at once.
pub pool_run-IsOwned :
    (max_per_key idle_timeout : ℕ) (steps : List PoolStep)
    → IsOwned (pool_run (new_pool max_per_key idle_timeout) steps)
unfolding new_pool
pool_run-IsOwned max_per_key idle_timeout steps =
    from_pool steps (new_pool max_per_key idle_timeout) (λ c. (omega arith, λ f. refl))
