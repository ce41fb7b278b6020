-- ===== src/MeshControl/Account.antt =====
-- The bytes in flight of lib/mb-mesh-control/src/lib.rs over any sequence of its operations.
use meshbus_rs.Prelude.{ℕ, ◌+◌, ◌-◌, min, nat_eq, ◌==◌}
use meshbus_rs.Prelude.{false, ◌||◌, List, [], ◌∷◌}
use meshbus_rs.Prelude.{IsMap, contains_key, Bool-cases}
use meshbus_rs.Prelude.{◌≡◌, refl, sym, arith, subst, inl, inr}
use meshbus_rs.MeshProto.Types.{AckNack}
use meshbus_rs.MeshControl.{
  InflightPackage, MeshPathController, on_ack, on_sent, insert_sorted, default_controller,
  on_pto_expired, word,
}
use meshbus_rs.MeshControl.Acks.{eliciting_bytes, counted, on_ack_settles, on_ack-bytes_in_flight}

pub data PathOp : Type 0 where
  sent : InflightPackage → PathOp
  acked : AckNack → ℕ → ℕ → PathOp
  pto_expired : PathOp

unfoldable pub path_step : MeshPathController → PathOp → MeshPathController
path_step c (sent p) = on_sent c p
path_step c (acked ack ack_delay_us now_us) = (on_ack c ack ack_delay_us now_us).0
path_step c pto_expired = on_pto_expired c

pub run_path : MeshPathController → List PathOp → MeshPathController
run_path c [] = c
run_path c (op ∷ ops) = run_path (path_step c op) ops

-- No package is sent under a number that is in flight.
abbrev FreshOp : MeshPathController → PathOp → Type 0
FreshOp c (sent p) = contains_key p.seq c.inflight ≡ false
FreshOp c (acked ack d now) = Unit {0}
FreshOp c pto_expired = Unit {0}

abbrev pub AllFresh : MeshPathController → List PathOp → Type 0
AllFresh c [] = Unit {0}
AllFresh c (op ∷ ops) = FreshOp c op × AllFresh (path_step c op) ops

-- The counter is the sum over the packages in flight that elicit an acknowledgement.
abbrev pub IsAccounted : MeshPathController → Type 0
IsAccounted c = IsMap c.inflight × (c.bytes_in_flight ≡ min (eliciting_bytes c.inflight) (word - 1))

contains_key-insert_sorted :
    (k : ℕ) (p : InflightPackage) (m : List (ℕ × InflightPackage))
    → contains_key k m ≡ false
    → (j : ℕ) → contains_key j (insert_sorted k p m) ≡ ((k == j) || contains_key j m)
unfolding insert_sorted
contains_key-insert_sorted k p [] h j = ground arith
contains_key-insert_sorted k p ((i, q) ∷ m) h j =
    ground (arith, contains_key-insert_sorted k p m _ j)

IsMap-insert_sorted :
    (k : ℕ) (p : InflightPackage) (m : List (ℕ × InflightPackage))
    → contains_key k m ≡ false
    → IsMap m
    → IsMap (insert_sorted k p m)
unfolding insert_sorted
IsMap-insert_sorted k p [] h w = (refl, tt)
IsMap-insert_sorted k p ((i, q) ∷ m) h (w, ws) =
    ground (arith, w, ws, IsMap-insert_sorted k p m _ ws, contains_key-insert_sorted k p m _ i)

eliciting_bytes-insert_sorted :
    (k : ℕ) (p : InflightPackage) (m : List (ℕ × InflightPackage))
    → contains_key k m ≡ false
    → eliciting_bytes (insert_sorted k p m) ≡ counted p + eliciting_bytes m
unfolding insert_sorted eliciting_bytes
eliciting_bytes-insert_sorted k p [] h = refl
eliciting_bytes-insert_sorted k p ((i, q) ∷ m) h =
    ground (arith, eliciting_bytes-insert_sorted k p m _)

on_sent-IsAccounted :
    (c : MeshPathController) (p : InflightPackage)
    → contains_key p.seq c.inflight ≡ false
    → IsAccounted c
    → IsAccounted (on_sent c p)
unfolding on_sent
on_sent-IsAccounted c p h (m, b) = elim (Bool-cases p.ack_eliciting) [
  | inl y ↦
      let total = eliciting_bytes-insert_sorted p.seq p c.inflight h in
      simp y (IsMap-insert_sorted p.seq p c.inflight h m, rw total (simp y (omega (arith, b))))
  | inr n ↦
      let total = eliciting_bytes-insert_sorted p.seq p c.inflight h in
      simp n (IsMap-insert_sorted p.seq p c.inflight h m, rw total (simp n (omega (arith, b))))
]

on_ack-IsAccounted :
    (c : MeshPathController) (ack : AckNack) (d now : ℕ)
    → IsAccounted c
    → IsAccounted (on_ack c ack d now).0
unfolding eliciting_bytes
on_ack-IsAccounted c ack d now (m, b) =
    let (empty, _, _) = on_ack_settles c ack d now m in
    let freed = on_ack-bytes_in_flight c ack d now m in
    (
      subst (λ t. IsMap t) (sym empty) tt,
      subst (λ t. (on_ack c ack d now).0.bytes_in_flight ≡ min (eliciting_bytes t) (word - 1))
          (sym empty) (omega (arith, freed, b)),
    )

run_path-IsAccounted :
    (ops : List PathOp) (c : MeshPathController)
    → AllFresh c ops
    → IsAccounted c
    → IsAccounted (run_path c ops)
unfolding run_path path_step on_pto_expired
run_path-IsAccounted [] c f h = h
run_path-IsAccounted (sent p ∷ ops) c (f, fs) h =
    run_path-IsAccounted ops (on_sent c p) fs (on_sent-IsAccounted c p f h)
run_path-IsAccounted (acked ack d now ∷ ops) c (f, fs) h =
    run_path-IsAccounted ops (on_ack c ack d now).0 fs (on_ack-IsAccounted c ack d now h)
run_path-IsAccounted (pto_expired ∷ ops) c (f, fs) h =
    run_path-IsAccounted ops (on_pto_expired c) fs h

-- Over any sequence of sent packages, acknowledgements and timeouts from the default controller, where
-- no package is sent under a number that is in flight, the bytes in flight are the sum of the sizes of
-- the packages in flight that elicit an acknowledgement, saturated at the greatest `u64`.
pub bytes_in_flight_exact :
    (ops : List PathOp)
    → AllFresh default_controller ops
    → IsAccounted (run_path default_controller ops)
unfolding eliciting_bytes
bytes_in_flight_exact ops f = run_path-IsAccounted ops default_controller f (tt, refl)
