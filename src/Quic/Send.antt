-- ===== src/Quic/Send.antt =====
-- `SendStream` of lib/mb-quic/src/stream.rs, and what both ends of a stream give together.
use meshbus_rs.Prelude.{take-drop, length-take}
use meshbus_rs.Prelude.{
  ℕ, ◌+◌, ◌≡◌, min, refl, subst, ap, ◌∙◌, sym, arith, Bool, true, false, not, ◌&&◌, ◌||◌,
  if◌then◌else◌, is_empty,
}
use meshbus_rs.Prelude.{
  Bytes, List, [], ◌∷◌, ◌++◌, length, length-append, take, drop, Option, none, some, All,
  Bool-cases, inl, inr,
}
use mathlib.Core.List.{append_assoc}

pub record SendStream : Type 0 where
  pub queued : Bytes
  pub send_off : ℕ
  pub fin : Bool
  pub fin_sent : Bool

abbrev pub new_send : SendStream
new_send = record { queued = []; send_off = 0; fin = false; fin_sent = false }

unfoldable pub write : SendStream → Bytes → Bool → SendStream
write s bytes fin =
    let t : SendStream = record s { queued = s.queued ++ bytes } in
    if fin then record t { fin = true } else t

unfoldable pub has_pending : SendStream → Bool
has_pending s = not (is_empty s.queued) || (s.fin && not s.fin_sent)

-- `take`: the frame's offset, bytes and end mark.
unfoldable pub take_frame : SendStream → ℕ → Option (ℕ × Bytes × Bool) × SendStream
take_frame s max =
    let n = min (length s.queued) max in
    let left = drop n s.queued in
    let fin = s.fin && is_empty left in
    let t : SendStream = record s {
      queued = left;
      send_off = s.send_off + n;
      fin_sent = s.fin_sent || fin;
    } in
    if has_pending s then (some (s.send_off, take n s.queued, fin), t) else (none, s)

pub data SendOp : Type 0 where
  write_op : Bytes → Bool → SendOp
  take_op : ℕ → SendOp

frame_cons : Option (ℕ × Bytes × Bool) → List (ℕ × Bytes × Bool) → List (ℕ × Bytes × Bool)
frame_cons none frames = frames
frame_cons (some f) frames = f ∷ frames

-- The frames that a sequence of calls yields, and the state at its end.
unfoldable pub run_send : SendStream → List SendOp → List (ℕ × Bytes × Bool) × SendStream
unfolding frame_cons
run_send s [] = ([], s)
run_send s (SendOp.write_op bytes fin ∷ ops) = run_send (write s bytes fin) ops
run_send s (SendOp.take_op max ∷ ops) =
    let (f, t) = take_frame s max in
    let (frames, end) = run_send t ops in (frame_cons f frames, end)

-- All that was written.
abbrev pub written : List SendOp → Bytes
written [] = []
written (SendOp.write_op bytes fin ∷ ops) = bytes ++ written ops
written (SendOp.take_op max ∷ ops) = written ops

-- A frame's bytes are those of a text at its offset.
abbrev pub FrameOf : Bytes → ℕ × Bytes × Bool → Type 0
FrameOf w f = (a : Bytes) × (b : Bytes) × (w ≡ a ++ (f.1 ++ b)) × (length a ≡ f.0)

queued-write :
    (s : SendStream) (bytes : Bytes) (fin : Bool) → (write s bytes fin).queued ≡ s.queued ++ bytes
unfolding write
queued-write s bytes true = refl
queued-write s bytes false = refl

send_off-write :
    (s : SendStream) (bytes : Bytes) (fin : Bool) → (write s bytes fin).send_off ≡ s.send_off
unfolding write
send_off-write s bytes true = refl
send_off-write s bytes false = refl

-- What is left, and the state behind a frame of at most `max` bytes.
abbrev after_take : SendStream → ℕ → SendStream
after_take s max =
    let n = min (length s.queued) max in
    let left = drop n s.queued in
    record s {
      queued = left;
      send_off = s.send_off + n;
      fin_sent = s.fin_sent || (s.fin && is_empty left);
    }

take_frame-none : (s : SendStream) (max : ℕ) → has_pending s ≡ false → take_frame s max ≡ (none, s)
unfolding take_frame
take_frame-none s max e = rw (e) refl

take_frame-some :
    (s : SendStream) (max : ℕ)
    → has_pending s ≡ true
    → take_frame s max ≡ (
      some (
        s.send_off,
        take (min (length s.queued) max) s.queued,
        s.fin && is_empty (drop (min (length s.queued) max) s.queued),
      ),
      after_take s max,
    )
unfolding take_frame
take_frame-some s max e = rw (e) refl

-- `sent` has gone out before: every later frame is one of all that is written in the end.
from_send :
    (ops : List SendOp) (s : SendStream) (sent : Bytes)
    → length sent ≡ s.send_off
    → All (FrameOf (sent ++ (s.queued ++ written ops))) (run_send s ops).0
unfolding run_send
from_send [] s sent h = tt
from_send (SendOp.write_op bytes fin ∷ ops) s sent h =
    let ih = from_send ops (write s bytes fin) sent (rw (send_off-write s bytes fin) h) in
    subst (λ (w : Bytes). All (FrameOf (sent ++ w)) (run_send (write s bytes fin) ops).0)
      (ap (λ (q : Bytes). q ++ written ops) (queued-write s bytes fin)
        ∙ append_assoc s.queued bytes (written ops))
      ih
from_send (SendOp.take_op max ∷ ops) s sent h = elim (Bool-cases (has_pending s)) [
  | inr e ↦ rw (take_frame-none s max e) (from_send ops s sent h)
  | inl e ↦
      let n = min (length s.queued) max in
      let chunk = take n s.queued in
      let left = drop n s.queued in
      let fin = s.fin && is_empty left in
      let t : SendStream = record s {
        queued = left;
        send_off = s.send_off + n;
        fin_sent = s.fin_sent || fin;
      } in
      let size = length-take n s.queued (omega arith) in
      let k : length (sent ++ chunk) ≡ s.send_off + n =
        omega (arith, length-append sent chunk, size) in
      let ih = from_send ops t (sent ++ chunk) k in
      let w : (sent ++ chunk) ++ (left ++ written ops) ≡ sent ++ (s.queued ++ written ops) =
        append_assoc sent chunk (left ++ written ops)
        ∙ ap (λ (r : Bytes). sent ++ r)
            (sym (append_assoc chunk left (written ops))
              ∙ ap (λ (q : Bytes). q ++ written ops) (take-drop n s.queued)) in
      let rest = subst (λ (x : Bytes). All (FrameOf x) (run_send t ops).0) w ih in
      let here : FrameOf (sent ++ (s.queued ++ written ops)) (s.send_off, chunk, fin) =
        (sent, left ++ written ops, sym w ∙ append_assoc sent chunk (left ++ written ops), h) in
      rw (take_frame-some s max e) (here, rest)
]

-- Every frame that leaves the sender, whatever the writes and the sizes that are asked for, has the bytes
-- that stand at its offset in all that was written.
pub run_send-FrameOf : (ops : List SendOp) → All (FrameOf (written ops)) (run_send new_send ops).0
run_send-FrameOf ops = from_send ops new_send [] refl
