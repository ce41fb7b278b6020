-- ===== src/Quic/InOrder.antt =====
-- That `RecvStream` of lib/mb-quic/src/stream.rs gives out the bytes of the stream in order.
use meshbus_rs.Prelude.{
  ℕ, zero, suc, ◌+◌, ◌-◌, ◌≡◌, ◌≤◌, ◌<◌, ltb, leb, ◌==◌, refl, subst, ap, ◌∙◌, sym, arith, max,
  Bool, true, false, ◌||◌, is_empty, if◌then◌else◌, some,
}
use meshbus_rs.Prelude.{Bytes, List, [], ◌∷◌, ◌++◌, length, drop, All, Bool-cases, inl, inr}
use meshbus_rs.Quic.Recv.{RecvStream, new_recv, or_insert, ingest, read_from, read}

-- `n` bytes of a stream, from an offset on.
abbrev pub segment : (ℕ → ℕ) → ℕ → ℕ → Bytes
segment stream start zero = []
segment stream start (suc n) = stream start ∷ segment stream (start + 1) n

pub data RecvOp : Type 0 where
  ingest_op : ℕ → Bytes → Bool → RecvOp
  read_op : RecvOp

unfoldable pub run_recv : RecvStream → List RecvOp → Bytes × RecvStream
run_recv s [] = ([], s)
run_recv s (RecvOp.ingest_op offset bytes fin ∷ ops) = run_recv (ingest s offset bytes fin) ops
run_recv s (RecvOp.read_op ∷ ops) =
    let (out, t) = read s in let (more, end) = run_recv t ops in (out ++ more, end)

module _ (stream : ℕ → ℕ) where
  -- Every chunk has the stream's bytes at its offset.
  abbrev pub Carries : List RecvOp → Type 0
  Carries [] = Unit {0}
  Carries (RecvOp.ingest_op offset bytes fin ∷ ops) =
      (bytes ≡ segment stream offset (length bytes)) × Carries ops
  Carries (RecvOp.read_op ∷ ops) = Carries ops

  abbrev Agrees : List (ℕ × Bytes) → Type 0
  Agrees chunks = All (λ c. c.1 ≡ segment stream c.0 (length c.1)) chunks

  length-segment : (start n : ℕ) → length (segment stream start n) ≡ n
  length-segment start zero = refl
  length-segment start (suc n) = ap suc (length-segment (start + 1) n)

  drop-segment :
      (k start n : ℕ) → drop k (segment stream start n) ≡ segment stream (start + k) (n - k)
  drop-segment zero start n =
      let e : start + 0 ≡ start = omega arith in let e' : n - 0 ≡ n = omega arith in rw (e, e') refl
  drop-segment (suc k) start zero = let e : 0 - suc k ≡ 0 = omega arith in rw (e) refl
  drop-segment (suc k) start (suc n) =
      let e : suc n - suc k ≡ n - k = omega arith in
      let e' : start + suc k ≡ start + 1 + k = omega arith in
      rw (e, e') (drop-segment k (start + 1) n)

  segment-append :
      (start m n : ℕ)
      → segment stream start m ++ segment stream (start + m) n ≡ segment stream start (m + n)
  segment-append start zero n =
      let e : start + 0 ≡ start = omega arith in let e' : 0 + n ≡ n = omega arith in rw (e, e') refl
  segment-append start (suc m) n =
      let e : suc m + n ≡ suc (m + n) = omega arith in
      let e' : start + suc m ≡ start + 1 + m = omega arith in
      rw (e, e', segment-append (start + 1) m n) refl

  -- What is left of a chunk behind an offset is the stream's there.
  chunk-drop :
      (off at_ : ℕ) (bytes : Bytes)
      → bytes ≡ segment stream off (length bytes)
      → off ≤ at_
      → drop (at_ - off) bytes ≡ segment stream at_ (length (drop (at_ - off) bytes))
  chunk-drop off at_ bytes h k =
      let n = length bytes - (at_ - off) in
      let e : off + (at_ - off) ≡ at_ = omega arith in
      let p : drop (at_ - off) bytes ≡ segment stream at_ n =
        ap (λ (b : Bytes). drop (at_ - off) b) h
        ∙ drop-segment (at_ - off) off (length bytes)
        ∙ ap (λ o. segment stream o n) e in
      let q : length (drop (at_ - off) bytes) ≡ n =
        ap (λ (b : Bytes). length b) p ∙ length-segment at_ n in
      p ∙ ap (λ m. segment stream at_ m) (sym q)

  or_insert-Agrees :
      (off : ℕ) (bytes : Bytes) (chunks : List (ℕ × Bytes))
      → bytes ≡ segment stream off (length bytes)
      → Agrees chunks
      → Agrees (or_insert off bytes chunks)
  unfolding or_insert
  or_insert-Agrees off bytes [] h k = (h, tt)
  or_insert-Agrees off bytes ((o, b) ∷ rest) h (k, ks) = elim (Bool-cases (off == o)) [
    | inl e ↦ rw (e) (k, ks)
    | inr e ↦ elim (Bool-cases (ltb off o)) [
      | inl f ↦ rw (e, f) (h, (k, ks))
      | inr f ↦ rw (e, f) (k, or_insert-Agrees off bytes rest h ks)
    ]
  ]

  read_from-Agrees :
      (chunks : List (ℕ × Bytes)) (at_ : ℕ)
      → Agrees chunks
      → ((read_from chunks at_).0 ≡ segment stream at_ ((read_from chunks at_).2 - at_))
        × (at_ ≤ (read_from chunks at_).2)
        × Agrees (read_from chunks at_).1
  unfolding read_from
  read_from-Agrees [] at_ h = let e : at_ - at_ ≡ 0 = omega arith in (rw (e) refl, omega arith, tt)
  read_from-Agrees ((off, bytes) ∷ rest) at_ (h, hs) = elim (Bool-cases (ltb at_ off)) [
    | inl e ↦ let z : at_ - at_ ≡ 0 = omega arith in rw (e, z) (refl, omega arith, (h, hs))
    | inr e ↦
        let fresh = drop (at_ - off) bytes in
        let f = chunk-drop off at_ bytes h (ground arith) in
        let next = at_ + length fresh in
        let (p, q, r) = read_from-Agrees rest next hs in
        let end = (read_from rest next).2 in
        let s = segment-append at_ (length fresh) (end - next) in
        let t : length fresh + (end - next) ≡ end - at_ = omega (arith, q) in
        rw (e) (
          ap (λ (b : Bytes). fresh ++ b) p
              ∙ ap (λ (b : Bytes). b ++ segment stream next (end - next)) f
              ∙ s
              ∙ ap (λ m. segment stream at_ m) t,
          omega (arith, q),
          r,
        )
  ]

  ingest-Agrees :
      (s : RecvStream) (offset : ℕ) (bytes : Bytes) (fin : Bool)
      → bytes ≡ segment stream offset (length bytes)
      → Agrees s.chunks
      → Agrees (ingest s offset bytes fin).chunks
        × ((ingest s offset bytes fin).read_off ≡ s.read_off)
  unfolding ingest
  ingest-Agrees s offset bytes fin h k =
      let start = max offset s.read_off in
      let c = chunk-drop offset start bytes h (omega arith) in
      let stored = or_insert-Agrees start (drop (start - offset) bytes) s.chunks c k in
      elim (Bool-cases (leb (offset + length bytes) s.read_off || is_empty bytes)) [
        | inl e ↦ elim (Bool-cases fin) [
          | inl f ↦ rw (e, f) (k, refl)
          | inr f ↦ rw (e, f) (k, refl)
        ]
        | inr e ↦ elim (Bool-cases fin) [
          | inl f ↦ rw (e, f) (stored, refl)
          | inr f ↦ rw (e, f) (stored, refl)
        ]
      ]

  from_recv :
      (ops : List RecvOp) (s : RecvStream)
      → Agrees s.chunks
      → Carries ops
      → ((run_recv s ops).0 ≡ segment stream s.read_off ((run_recv s ops).1.read_off - s.read_off))
        × (s.read_off ≤ (run_recv s ops).1.read_off)
  unfolding run_recv read
  from_recv [] s h c =
      let e : s.read_off - s.read_off ≡ 0 = omega arith in (rw (e) refl, omega arith)
  from_recv (RecvOp.ingest_op offset bytes fin ∷ ops) s h (c, cs) =
      let (k, e) = ingest-Agrees s offset bytes fin c h in
      let run = run_recv (ingest s offset bytes fin) ops in
      subst (λ (o : ℕ). (run.0 ≡ segment stream o (run.1.read_off - o)) × (o ≤ run.1.read_off)) e
        (from_recv ops (ingest s offset bytes fin) k cs)
  from_recv (RecvOp.read_op ∷ ops) s h c =
      let (p, q, r) = read_from-Agrees s.chunks s.read_off h in
      let t = (read s).1 in
      let start = s.read_off in
      let m = t.read_off - start in
      let (p', q') = from_recv ops t r c in
      let last = (run_recv t ops).1.read_off in
      let at_ : start + m ≡ t.read_off = omega (arith, q) in
      let sum : m + (last - t.read_off) ≡ last - start = omega (arith, q, q') in
      let whole = segment-append start m (last - t.read_off) in
      (rw (p, p') (rw (at_, sum) at whole), omega (arith, q, q'))

-- However chunks arrive between the reads, in any order, overlapping or repeated, the reads give the bytes
-- of the stream from 0 to the offset that has been reached, each once and in order, where every chunk
-- carries the stream's bytes at its offset.
pub run_recv_in_order :
    (stream : ℕ → ℕ) (ops : List RecvOp)
    → Carries stream ops
    → (run_recv new_recv ops).0 ≡ segment stream 0 (run_recv new_recv ops).1.read_off
run_recv_in_order stream ops c =
    let (p, _) = from_recv stream ops new_recv tt c in
    let e : (run_recv new_recv ops).1.read_off - 0 ≡ (run_recv new_recv ops).1.read_off =
      omega arith in
    rw (e) at p

or_insert-or_insert :
    (off : ℕ) (a b : Bytes) (chunks : List (ℕ × Bytes))
    → or_insert off b (or_insert off a chunks) ≡ or_insert off a chunks
unfolding or_insert
or_insert-or_insert off a b [] = ground arith
or_insert-or_insert off a b ((o, c) ∷ rest) = ground (arith, or_insert-or_insert off a b rest)

-- A chunk whose start is taken stores nothing.
ingest-taken :
    (s : RecvStream) (offset : ℕ) (bytes : Bytes) (end : Bool)
    → or_insert (max offset s.read_off) (drop (max offset s.read_off - offset) bytes) s.chunks
      ≡ s.chunks
    → ingest s offset bytes end
      ≡ record s { final_size = if end then some (offset + length bytes) else s.final_size }
unfolding ingest
ingest-taken s offset bytes true e = ground (arith, e)
ingest-taken s offset bytes false e = ground (arith, e)

-- A chunk of which something is new is stored from its first new byte on.
ingest-stored :
    (s : RecvStream) (offset : ℕ) (bytes : Bytes) (fin : Bool)
    → 0 < length bytes
    → s.read_off < offset + length bytes
    → ((ingest s offset bytes fin).chunks
        ≡ or_insert (max offset s.read_off) (drop (max offset s.read_off - offset) bytes) s.chunks)
      × ((ingest s offset bytes fin).read_off ≡ s.read_off)
unfolding ingest
ingest-stored s offset [] fin k h = absurd (omega arith)
ingest-stored s offset (b ∷ bs) true k h =
    let t : leb (offset + length (b ∷ bs)) s.read_off ≡ false = ground arith in rw t (refl, refl)
ingest-stored s offset (b ∷ bs) false k h =
    let t : leb (offset + length (b ∷ bs)) s.read_off ≡ false = ground arith in rw t (refl, refl)

-- Behind a chunk of which something is stored, any other chunk at the same offset, of any bytes and
-- length, stores nothing: the state is the one before it, but that a chunk with the end of the stream
-- sets the final size to its own end. So also a longer chunk is dropped, with bytes that have not
-- arrived.
pub ingest-ingest_same :
    (s : RecvStream) (offset : ℕ) (first other : Bytes) (fin end : Bool)
    → 0 < length first
    → s.read_off < offset + length first
    → ingest (ingest s offset first fin) offset other end ≡ record (ingest s offset first fin) {
      final_size =
          if end then some (offset + length other) else (ingest s offset first fin).final_size;
    }
ingest-ingest_same s offset first other fin end k h =
    let (stored, at_) = ingest-stored s offset first fin k h in
    let start = max offset s.read_off in
    ingest-taken (ingest s offset first fin) offset other end (
      rw (at_, stored)
        (or_insert-or_insert start (drop (start - offset) first) (drop (start - offset) other)
          s.chunks))
