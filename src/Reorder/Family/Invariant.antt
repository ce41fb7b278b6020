-- ===== src/Reorder/Family/Invariant.antt =====
-- The invariant of a family, kept by every push, and what a push delivers.
use meshbus_rs.Prelude.{ℕ, ◌+◌, ◌-◌, ◌≤◌, ◌<◌, ◌==◌, ltb, leb, nat_eq, length}
use meshbus_rs.Prelude.{true, false, ◌||◌, List, [], ◌∷◌, some, is_some}
use meshbus_rs.Prelude.{contains_key, contains, keys, insert, lookup-insert}
use meshbus_rs.Prelude.{
  contains_key-insert, contains-keys, ◌≡◌, refl, arith, inl, inr, Bool-cases, Text,
}
use meshbus_rs.Bits.{test_bit, test_bit-set_bit, test_bit-zero}
use meshbus_rs.MeshProto.Types.{DataPackage}
use meshbus_rs.Reorder.Family.{Packages, FamilyReorderState, FamilyPushOutcome, new_family, window}
use meshbus_rs.Reorder.Family.{bitmap_of, rebuild_bitmap, deliver_from, store, push_package}
use meshbus_rs.Reorder.Family.{is_new_highest, highest_with, family_bitmap_bits}
use meshbus_rs.Reorder.Family.Deliver.{IsRun, IsKeyed, Drained, drain-Drained}

-- The buffered packages stand under their own numbers, above the next expected one and within the
-- window; the bitmap marks exactly them; the highest number seen bounds them.
pub record IsValid (s : FamilyReorderState) : Type 0 where
  pub keyed : IsKeyed s.buffer
  pub ahead : (k : ℕ) → contains_key k s.buffer ≡ true → s.next_expected_seq < k
  pub within : (k : ℕ) → contains_key k s.buffer ≡ true → k < s.next_expected_seq + window s
  pub marked :
      (d : ℕ)
      → d < family_bitmap_bits
      → test_bit s.received_bitmap d ≡ contains_key (s.next_expected_seq + d) s.buffer

test_bit-bitmap_of :
    (next : ℕ) (ks : List ℕ) (d : ℕ)
    → ((k : ℕ) → contains k ks ≡ true → next ≤ k)
    → d < family_bitmap_bits
    → test_bit (bitmap_of next ks) d ≡ contains (next + d) ks
unfolding bitmap_of
test_bit-bitmap_of next [] d h l = test_bit-zero d
test_bit-bitmap_of next (k ∷ ks) d h l = ground (
  arith,
  h k,
  test_bit-set_bit (bitmap_of next ks) (k - next) d,
  test_bit-bitmap_of next ks d (λ j e. h j (rw e (ground arith))) l,
)

-- A rebuilt bitmap is right, whatever it was.
rebuild-IsValid :
    (s : FamilyReorderState)
    → IsKeyed s.buffer
    → ((k : ℕ) → contains_key k s.buffer ≡ true → s.next_expected_seq < k)
    → ((k : ℕ) → contains_key k s.buffer ≡ true → k < s.next_expected_seq + window s)
    → IsValid (rebuild_bitmap s)
unfolding rebuild_bitmap
rebuild-IsValid s keyed ahead within = record {
  keyed = keyed;
  ahead = ahead;
  within = within;
  marked = λ d l. rw (← contains-keys) (
      test_bit-bitmap_of s.next_expected_seq (keys s.buffer) d
        (λ k e. omega (arith, ahead k (rw contains-keys at e))) l);
}

-- A new family is valid.
pub new_family-IsValid :
    (family_id : Text) (start_seq reorder_window repair_deadline_ms : ℕ)
    → IsValid (new_family family_id start_seq reorder_window repair_deadline_ms)
unfolding new_family
new_family-IsValid family_id start_seq reorder_window repair_deadline_ms = record {
  keyed = λ k p e. absurd (cc e);
  ahead = λ k e. absurd (cc e);
  within = λ k e. absurd (cc e);
  marked = λ d l. test_bit-zero d;
}

-- The packages that an outcome hands on.
abbrev pub delivered : FamilyPushOutcome → List DataPackage
delivered (FamilyPushOutcome.deliver ps) = ps
delivered FamilyPushOutcome.buffered = []
delivered FamilyPushOutcome.duplicate = []
delivered (FamilyPushOutcome.gap a) = []
delivered (FamilyPushOutcome.window_overflow a) = []

-- What every push does: it keeps the invariant, and hands on the next numbers without a gap.
pub record Pushed (s : FamilyReorderState) (r : FamilyPushOutcome × FamilyReorderState)
    : Type 0 where
  pub valid : IsValid r.1
  pub in_order : IsRun s.next_expected_seq (delivered r.0)
  pub moved : r.1.next_expected_seq ≡ s.next_expected_seq + length (delivered r.0)

module _ {s : FamilyReorderState} (v : IsValid s) {out : List DataPackage × Packages × ℕ}
    (d : Drained s.buffer (s.next_expected_seq + 1) out) where
  drained_ahead : (k : ℕ) → contains_key k out.1 ≡ true → out.2 < k
  drained_ahead k e = ground (arith, d.rest k, v.ahead k, d.moved, d.ended, not_last k)
    where
      not_last : (j : ℕ) → j ≡ out.2 → contains_key j out.1 ≡ false
      not_last j q = rw q d.ended

  drained_within : (k : ℕ) → contains_key k out.1 ≡ true → k < out.2 + window s
  drained_within k e = ground (arith, d.rest k, v.within k, d.moved)

module _ {s : FamilyReorderState} (v : IsValid s) (pkg : DataPackage) where
  deliver_from-Pushed : pkg.seq ≡ s.next_expected_seq → Pushed s (deliver_from s pkg)
  unfolding deliver_from
  deliver_from-Pushed e =
      let d =
        drain-Drained (length s.buffer) s.buffer (s.next_expected_seq + 1) (omega arith) v.keyed in
      record {
        valid = rebuild-IsValid _ d.keyed (drained_ahead v d) (drained_within v d);
        in_order = (e, d.in_order);
        moved = unfold rebuild_bitmap in omega (arith, d.moved);
      }

  store-IsValid :
      s.next_expected_seq < pkg.seq
      → pkg.seq < s.next_expected_seq + window s
      → IsValid (store s pkg)
  unfolding store
  store-IsValid h k =
      rebuild-IsValid
        (record s {
          buffer = insert pkg.seq pkg s.buffer;
          highest_seen = some (highest_with s.highest_seen pkg.seq);
        })
        (λ j p e. ground (arith, v.keyed j p, lookup-insert pkg.seq j pkg s.buffer))
        (λ j e. ground (arith, v.ahead j, contains_key-insert pkg.seq j pkg s.buffer))
        (λ j e. ground (arith, v.within j, contains_key-insert pkg.seq j pkg s.buffer))

-- An outcome that delivers nothing, with a state that expects the same number.
kept :
    {s t : FamilyReorderState} (o : FamilyPushOutcome)
    → delivered o ≡ []
    → IsValid t
    → t.next_expected_seq ≡ s.next_expected_seq
    → Pushed s (o, t)
kept o e v n = record { valid = v; in_order = rw e tt; moved = rw e (omega arith) }

next-store :
    (s : FamilyReorderState) (pkg : DataPackage)
    → (store s pkg).next_expected_seq ≡ s.next_expected_seq
unfolding store rebuild_bitmap
next-store s pkg = refl

-- A push keeps the invariant of a valid family, and hands on packages with the next numbers, without a gap, as many as
-- the next expected number moves by.
pub push_package-Pushed :
    (s : FamilyReorderState) (pkg : DataPackage) → IsValid s → Pushed s (push_package s pkg)
unfolding push_package
push_package-Pushed s pkg v = elim (Bool-cases (is_some s.closed)) [
  | inl c ↦ simp c (kept _ refl v refl)
  | inr c ↦ elim (Bool-cases (ltb pkg.seq s.next_expected_seq || contains_key pkg.seq s.buffer)) [
    | inl d ↦ simp (c, d) (kept _ refl v refl)
    | inr d ↦ elim (Bool-cases (pkg.seq == s.next_expected_seq)) [
      | inl n ↦ simp (c, d, n) (deliver_from-Pushed v pkg (ground arith))
      | inr n ↦ elim (Bool-cases (leb (window s) (pkg.seq - s.next_expected_seq))) [
        | inl w ↦
            simp (c, d, n, w)
              (kept _ refl
                (record { keyed = v.keyed; ahead = v.ahead; within = v.within; marked = v.marked })
                refl)
        | inr w ↦
            let stored = store-IsValid v pkg (ground arith) (ground arith) in
            elim (Bool-cases (is_new_highest s.highest_seen pkg.seq)) [
              | inl h ↦ simp (c, d, n, w, h) (kept _ refl stored (next-store s pkg))
              | inr h ↦ simp (c, d, n, w, h) (kept _ refl stored (next-store s pkg))
            ]
      ]
    ]
  ]
]
