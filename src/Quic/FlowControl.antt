-- ===== src/Quic/FlowControl.antt =====
-- lib/mb-quic/src/flow_control.rs: the window of bytes that may still be sent, or received.
use meshbus_rs.Prelude.{
  ℕ, ◌+◌, ◌-◌, ◌*◌, ◌≡◌, ◌≤◌, ◌<◌, ltb, leb, arith, Bool, true, false, if◌then◌else◌, Option, none,
  some, List, [], ◌∷◌, All,
}
use meshbus_rs.Quic.{wrap64}

pub record FlowController : Type 0 where
  pub limit : ℕ
  pub used : ℕ

unfoldable pub new_controller : ℕ → FlowController
new_controller initial_limit = record { limit = initial_limit; used = 0 }

unfoldable pub available : FlowController → ℕ
available f = f.limit - f.used

unfoldable pub consume : FlowController → ℕ → Bool × FlowController
unfolding available
consume f n =
    if ltb (available f) n then (false, f) else (true, record f { used = wrap64 (f.used + n) })

unfoldable pub set_limit : FlowController → ℕ → FlowController
set_limit f new_limit = if ltb f.limit new_limit then record f { limit = new_limit } else f

unfoldable pub maybe_extend : FlowController → ℕ → Option ℕ × FlowController
maybe_extend f window =
    let limit = wrap64 (f.used + window) in
    if leb (wrap64 ((f.limit - f.used) * 2)) window
    then (some limit, record f { limit = limit })
    else (none, f)

pub data FlowOp : Type 0 where
  consume_op set_limit_op maybe_extend_op : ℕ → FlowOp

abbrev pub argument : FlowOp → ℕ
argument (FlowOp.consume_op n) = n
argument (FlowOp.set_limit_op n) = n
argument (FlowOp.maybe_extend_op n) = n

unfoldable pub flow_step : FlowController → FlowOp → FlowController
unfolding consume set_limit maybe_extend
flow_step f (FlowOp.consume_op n) = (consume f n).1
flow_step f (FlowOp.set_limit_op n) = set_limit f n
flow_step f (FlowOp.maybe_extend_op n) = (maybe_extend f n).1

-- The bytes that an operation has taken of the window.
unfoldable pub granted : FlowController → FlowOp → ℕ
unfolding consume
granted f (FlowOp.consume_op n) = if (consume f n).0 then n else 0
granted f (FlowOp.set_limit_op n) = 0
granted f (FlowOp.maybe_extend_op n) = 0

unfoldable pub flow_run : FlowController → List FlowOp → FlowController
flow_run f [] = f
flow_run f (op ∷ ops) = flow_run (flow_step f op) ops

unfoldable pub granted_all : FlowController → List FlowOp → ℕ
granted_all f [] = 0
granted_all f (op ∷ ops) = granted f op + granted_all (flow_step f op) ops

-- The window of a connection whose limits and sizes are varints.
abbrev pub IsWindow : FlowController → Type 0
IsWindow f = (f.used ≤ f.limit) × (f.limit < 9223372036854775808)

-- Limits, lengths and windows are below 2 ^ 62.
abbrev pub IsVarints : List FlowOp → Type 0
IsVarints ops = All (λ op. argument op < 4611686018427387904) ops

-- A window whose use and size stay small after many extensions.
abbrev pub StaysBelow : FlowController → List FlowOp → Type 0
StaysBelow f [] = Unit {0}
StaysBelow f (op ∷ ops) = (f.used < 4611686018427387904) × StaysBelow (flow_step f op) ops

flow_step_lem :
    (f : FlowController) (op : FlowOp)
    → f.used ≤ f.limit
    → f.limit < 9223372036854775808
    → f.used < 4611686018427387904
    → argument op < 4611686018427387904
    → ((flow_step f op).used ≡ f.used + granted f op)
      × ((flow_step f op).used ≤ (flow_step f op).limit)
      × ((flow_step f op).limit < 9223372036854775808)
      × (f.limit ≤ (flow_step f op).limit)
unfolding flow_step consume set_limit maybe_extend available granted
flow_step_lem f (FlowOp.consume_op n) h k l a = ground arith
flow_step_lem f (FlowOp.set_limit_op n) h k l a = ground arith
flow_step_lem f (FlowOp.maybe_extend_op n) h k l a = ground arith

-- Along any calls, the use of a window is what it was and the sizes of the granted ones, never above the
-- limit, and the limit never decreases, also where it is set to the use and a window; while less than
-- 2 ^ 62 bytes are used, and limits, sizes and windows are below 2 ^ 62.
pub flow_run_lem :
    (f : FlowController) (ops : List FlowOp)
    → IsWindow f
    → IsVarints ops
    → StaysBelow f ops
    → ((flow_run f ops).used ≡ f.used + granted_all f ops)
      × ((flow_run f ops).used ≤ (flow_run f ops).limit)
      × (f.limit ≤ (flow_run f ops).limit)
unfolding flow_run granted_all
flow_run_lem f [] (h, k) a s = (omega arith, h, omega arith)
flow_run_lem f (op ∷ ops) (h, k) (a, as_) (s, ss) =
    let (p, q, r, t) = flow_step_lem f op h k s a in
    let (p', q', t') = flow_run_lem (flow_step f op) ops (q, r) as_ ss in
    (omega (arith, p, p'), q', omega (arith, t, t'))
