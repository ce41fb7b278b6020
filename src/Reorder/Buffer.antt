-- ===== src/Reorder/Buffer.antt =====
-- `ReorderBuffer` of lib/mb-reorder/src/lib.rs. `insert` stores a payload at once and returns a lazy
-- iterator: each `next` of it is a step of its own, `poll`, and the caller may stop at any point.
use meshbus_rs.Prelude.{Bytes, ℕ, zero, suc, ◌+◌, leb, nat_eq, lookup}
use meshbus_rs.Prelude.{not, ◌&&◌, List, [], ◌∷◌, ◌++◌, Option, none, some, insert, remove}
use meshbus_rs.Prelude.{
  contains_key, lookup-insert, lookup-remove, subst, if◌then◌else◌, Option-cases,
}
use meshbus_rs.Prelude.{◌≡◌, refl, arith, inl, inr}

pub record ReorderBuffer : Type 0 where
  pub next : ℕ
  pub pending : List (ℕ × Bytes)

pub new_buffer : ℕ → ReorderBuffer
new_buffer start_seq = record { next = start_seq; pending = [] }

pub insert_payload : ReorderBuffer → ℕ → Bytes → ReorderBuffer
insert_payload b seq payload =
    if leb b.next seq && not (contains_key seq b.pending)
    then record b { pending = insert seq payload b.pending }
    else b

taken : ReorderBuffer → Option Bytes → Option Bytes × ReorderBuffer
taken b none = (none, b)
taken b (some v) = (some v, record b { pending = remove b.next b.pending; next = b.next + 1 })

pub poll : ReorderBuffer → Option Bytes × ReorderBuffer
unfolding taken
poll b = taken b (lookup b.next b.pending)

pub data BufferOp : Type 0 where
  insert_op : ℕ → Bytes → BufferOp
  poll_op : BufferOp

emitted : Option Bytes → List Bytes
emitted none = []
emitted (some v) = v ∷ []

-- The payloads that the polls of a sequence of calls yield.
pub run_buffer : ReorderBuffer → List BufferOp → List Bytes
unfolding emitted
run_buffer b [] = []
run_buffer b (insert_op seq v ∷ ops) = run_buffer (insert_payload b seq v) ops
run_buffer b (poll_op ∷ ops) = let (v, b') = poll b in emitted v ++ run_buffer b' ops

-- Every insertion carries the payload that the stream has at its number.
abbrev pub Carries : (ℕ → Bytes) → List BufferOp → Type 0
Carries stream [] = Unit {0}
Carries stream (insert_op seq v ∷ ops) = (v ≡ stream seq) × Carries stream ops
Carries stream (poll_op ∷ ops) = Carries stream ops

-- `n` payloads of the stream, from a number on.
abbrev pub segment : (ℕ → Bytes) → ℕ → ℕ → List Bytes
segment stream start zero = []
segment stream start (suc n) = stream start ∷ segment stream (start + 1) n

abbrev Agrees : (ℕ → Bytes) → ReorderBuffer → Type 0
Agrees stream b = (k : ℕ) (v : Bytes) → lookup k b.pending ≡ some v → v ≡ stream k

insert-Agrees :
    (stream : ℕ → Bytes) (b : ReorderBuffer) (seq : ℕ) (v : Bytes)
    → v ≡ stream seq
    → Agrees stream b
    → Agrees stream (insert_payload b seq v)
unfolding insert_payload
insert-Agrees stream b seq v e h k w f = ground (arith, h k w, lookup-insert seq k v b.pending)

next-insert : (b : ReorderBuffer) (seq : ℕ) (v : Bytes) → (insert_payload b seq v).next ≡ b.next
unfolding insert_payload
next-insert b seq v = ground arith

module _ (stream : ℕ → Bytes) where
  from_buffer :
      (ops : List BufferOp) (b : ReorderBuffer)
      → Agrees stream b
      → Carries stream ops
      → (n : ℕ) × (run_buffer b ops ≡ segment stream b.next n)
  unfolding run_buffer poll
  from_buffer [] b h c = (0, refl)
  from_buffer (insert_op seq v ∷ ops) b h (e, c) =
      let (n, ih) = from_buffer ops (insert_payload b seq v) (insert-Agrees stream b seq v e h) c in
      (
        n,
        subst (λ m. run_buffer (insert_payload b seq v) ops ≡ segment stream m n)
            (next-insert b seq v) ih,
      )
  from_buffer (poll_op ∷ ops) b h c = elim (Option-cases (lookup b.next b.pending)) [
    | inl e ↦ let (n, ih) = from_buffer ops b h c in (n, rw (e) ih)
    | inr (v, e) ↦
        let (n, ih) =
          from_buffer ops (record b { pending = remove b.next b.pending; next = b.next + 1 })
            (λ k w f. h k w (ground (arith, lookup-remove b.next k b.pending))) c in
        (suc n, rw (e, h b.next v e, ih) refl)
  ]

-- However inserts and polls interleave, with losses and repetitions, the polls yield the stream's
-- payloads from the buffer's first number on, in order, if the inserted payloads are the stream's.
pub run_buffer_in_order :
    (stream : ℕ → Bytes) (start : ℕ) (ops : List BufferOp)
    → Carries stream ops
    → (n : ℕ) × (run_buffer (new_buffer start) ops ≡ segment stream start n)
unfolding new_buffer
run_buffer_in_order stream start ops c =
    from_buffer stream ops (new_buffer start) (λ k v e. absurd (cc e)) c
