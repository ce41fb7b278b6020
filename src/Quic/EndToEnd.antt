-- ===== src/Quic/EndToEnd.antt =====
-- A stream of lib/mb-quic/src/stream.rs from its writer to its reader.
use meshbus_rs.Prelude.{take-drop, length-take}
use meshbus_rs.Prelude.{
  ℕ, zero, suc, ◌+◌, ◌≡◌, ◌≤◌, ◌<◌, ltb, refl, ap, ◌∙◌, sym, arith, Bool-cases, inl, inr,
}
use meshbus_rs.Prelude.{
  Bytes, Bool, List, [], ◌∷◌, ◌++◌, length, length-append, take, drop, get_or, In, head, later, All,
}
use meshbus_rs.Quic.Recv.{new_recv}
use meshbus_rs.Quic.InOrder.{segment, RecvOp, run_recv, Carries, run_recv_in_order}
use meshbus_rs.Quic.Send.{SendOp, FrameOf, new_send, run_send, run_send-FrameOf, written}
use mathlib.Core.List.{append_assoc}

-- Everything that arrives is one of the frames; frames may be lost, repeated or late.
abbrev pub Delivers : List (ℕ × Bytes × Bool) → List RecvOp → Type 0
Delivers frames [] = Unit {0}
Delivers frames (RecvOp.ingest_op offset bytes fin ∷ ops) =
    In (offset, bytes, fin) frames × Delivers frames ops
Delivers frames (RecvOp.read_op ∷ ops) = Delivers frames ops

abbrev bytes_of : Bytes → ℕ → ℕ → ℕ
bytes_of w d i = get_or w i d

get_or-append : (a : Bytes) (x d : ℕ) (b : Bytes) → get_or (a ++ (x ∷ b)) (length a) d ≡ x
get_or-append [] x d b = refl
get_or-append (y ∷ ys) x d b = get_or-append ys x d b

segment-middle :
    (d : ℕ) (a c b : Bytes) → segment (bytes_of (a ++ (c ++ b)) d) (length a) (length c) ≡ c
segment-middle d a [] b = refl
segment-middle d a (x ∷ xs) b =
    let w : (a ++ (x ∷ [])) ++ (xs ++ b) ≡ a ++ (x ∷ (xs ++ b)) =
      append_assoc a (x ∷ []) (xs ++ b) in
    let k : length (a ++ (x ∷ [])) ≡ length a + 1 = length-append a (x ∷ []) in
    let ih = segment-middle d (a ++ (x ∷ [])) xs b in
    let rest : segment (bytes_of (a ++ (x ∷ (xs ++ b))) d) (length a + 1) (length xs) ≡ xs =
      rw (← w, ← k) ih in
    rw (rest, get_or-append a x d (xs ++ b)) refl

FrameOf-segment :
    (d : ℕ) (w : Bytes) (f : ℕ × Bytes × Bool)
    → FrameOf w f
    → f.1 ≡ segment (bytes_of w d) f.0 (length f.1)
FrameOf-segment d w f (a, b, e, k) = rw (e, ← k) (sym (segment-middle d a f.1 b))

All-In : {A : Type 0} (P : A → Type 0) {x : A} {xs : List A} → In x xs → All P xs → P x
All-In P (head {b = y} e) (h, hs) = rw (e) h
All-In P (later {b = y} i) (h, hs) = All-In P i hs

Delivers-Carries :
    (d : ℕ) (w : Bytes) (frames : List (ℕ × Bytes × Bool)) (ops : List RecvOp)
    → All (FrameOf w) frames
    → Delivers frames ops
    → Carries (bytes_of w d) ops
Delivers-Carries d w frames [] h c = tt
Delivers-Carries d w frames (RecvOp.ingest_op offset bytes fin ∷ ops) h (c, cs) = (
  FrameOf-segment d w (offset, bytes, fin) (All-In (FrameOf w) c h),
  Delivers-Carries d w frames ops h cs,
)
Delivers-Carries d w frames (RecvOp.read_op ∷ ops) h c = Delivers-Carries d w frames ops h c

get_or-segment :
    (s : ℕ → ℕ) (start n i : ℕ) → i < n → get_or (segment s start n) i 0 ≡ s (start + i)
get_or-segment s start zero i h = absurd (omega arith)
get_or-segment s start (suc n) zero h = let e : start + 0 ≡ start = omega arith in rw (e) refl
get_or-segment s start (suc n) (suc i) h =
    let e : start + suc i ≡ start + 1 + i = omega arith in
    rw (e) (get_or-segment s (start + 1) n i (omega arith))

get_or-length : (w : Bytes) (d : ℕ) → get_or w (0 + length w) d ≡ d
get_or-length w d = let e : 0 + length w ≡ length w = omega arith in rw (e) (past w d)
  where
    past : (w : Bytes) (d : ℕ) → get_or w (length w) d ≡ d
    past [] d = refl
    past (x ∷ xs) d = past xs d

-- A run that does not show what stands behind the end of a text does not reach behind it.
segment_le :
    (w : Bytes) (n : ℕ) → segment (bytes_of w 0) 0 n ≡ segment (bytes_of w 1) 0 n → n ≤ length w
segment_le w n h = elim (Bool-cases (ltb (length w) n)) [
  | inr e ↦ ground arith
  | inl e ↦
      let p = get_or-segment (bytes_of w 0) 0 n (length w) (ground arith) in
      let q = get_or-segment (bytes_of w 1) 0 n (length w) (ground arith) in
      let same : 0 ≡ suc zero =
        sym (get_or-length w 0)
        ∙ sym p
        ∙ ap (λ (b : Bytes). get_or b (length w) 0) h
        ∙ q
        ∙ get_or-length w 1 in
      absurd (omega (arith, same))
]

segment-take : (w : Bytes) (d n : ℕ) → n ≤ length w → segment (bytes_of w d) 0 n ≡ take n w
segment-take w d n h =
    let m = segment-middle d [] (take n w) (drop n w) in rw (take-drop n w, length-take n w h) at m

-- What a reader has read is a prefix of what the writer has written, however the writer's calls cut the bytes
-- into frames, and however the frames are lost, repeated or reordered on their way between the reads.
pub run_recv-run_send :
    (sends : List SendOp) (receives : List RecvOp)
    → Delivers (run_send new_send sends).0 receives
    → (n : ℕ) × (n ≤ length (written sends))
      × ((run_recv new_recv receives).0 ≡ take n (written sends))
run_recv-run_send sends receives h =
    let w = written sends in
    let frames = (run_send new_send sends).0 in
    let all = run_send-FrameOf sends in
    let n = (run_recv new_recv receives).1.read_off in
    let p0 =
      run_recv_in_order (bytes_of w 0) receives (Delivers-Carries 0 w frames receives all h) in
    let p1 =
      run_recv_in_order (bytes_of w 1) receives (Delivers-Carries 1 w frames receives all h) in
    let k = segment_le w n (sym p0 ∙ p1) in (n, k, p0 ∙ segment-take w 0 n k)
