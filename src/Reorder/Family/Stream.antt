-- ===== src/Reorder/Family/Stream.antt =====
-- Whole sequences of pushes into one family.
use meshbus_rs.Prelude.{ℕ, zero, suc, ◌+◌, ◌-◌, ◌==◌, ltb, leb, nat_eq, length, lookup, Text}
use meshbus_rs.Prelude.{◌||◌, List, [], ◌∷◌, ◌++◌, some, is_some, All}
use meshbus_rs.Prelude.{All-append, length-append, remove, lookup-insert, lookup-remove}
use meshbus_rs.Prelude.{contains_key, Option-cases, ◌≡◌, refl, subst, arith, inl, inr, Bool-cases}
use meshbus_rs.Prelude.{In, head, later}
use meshbus_rs.MeshProto.Types.{DataPackage}
use meshbus_rs.Reorder.Family.{Packages, FamilyReorderState, new_family, window}
use meshbus_rs.Reorder.Family.{
  rebuild_bitmap, deliver_from, store, push_package, drain, is_new_highest,
}
use meshbus_rs.Reorder.Family.Deliver.{IsRun}
use meshbus_rs.Reorder.Family.Invariant.{
  IsValid, delivered, push_package-Pushed, new_family-IsValid,
}

-- What a sequence of pushes hands on, in order, and the state after it.
unfoldable pub push_all :
    FamilyReorderState → List DataPackage → List DataPackage × FamilyReorderState
push_all s [] = ([], s)
push_all s (p ∷ ps) =
    let (outcome, s1) = push_package s p in
    let (rest, s2) = push_all s1 ps in (delivered outcome ++ rest, s2)

IsRun-append :
    (start : ℕ) (ps qs : List DataPackage)
    → IsRun start ps
    → IsRun (start + length ps) qs
    → IsRun start (ps ++ qs)
IsRun-append start [] qs h k = subst (λ n. IsRun n qs) (omega arith) k
IsRun-append start (p ∷ ps) qs (e, h) k =
    (e, IsRun-append (start + 1) ps qs h (subst (λ n. IsRun n qs) (omega arith) k))

pub push_all-IsRun :
    (ps : List DataPackage) (s : FamilyReorderState)
    → IsValid s
    → IsRun s.next_expected_seq (push_all s ps).0
      × ((push_all s ps).1.next_expected_seq ≡ s.next_expected_seq + length (push_all s ps).0)
      × IsValid (push_all s ps).1
unfolding push_all
push_all-IsRun [] s v = (tt, omega arith, v)
push_all-IsRun (p ∷ ps) s v =
    let step = push_package-Pushed s p v in
    let (run, moved, valid) = push_all-IsRun ps (push_package s p).1 step.valid in
    (
      IsRun-append s.next_expected_seq (delivered (push_package s p).0) _ step.in_order
          (subst (λ n. IsRun n (push_all (push_package s p).1 ps).0) step.moved run),
      omega (
        arith,
        moved,
        step.moved,
        length-append (delivered (push_package s p).0) (push_all (push_package s p).1 ps).0,
      ),
      valid,
    )

-- Every buffered package satisfies `P`.
abbrev Holds {κ} : (DataPackage → Type κ) → Packages → Type κ
Holds P buf = (k : ℕ) (p : DataPackage) → lookup k buf ≡ some p → P p

module _ {κ} {P : DataPackage → Type κ} where
  drain-Holds :
      (fuel : ℕ) (buf : Packages) (next : ℕ)
      → Holds P buf
      → All P (drain fuel buf next).0 × Holds P (drain fuel buf next).1
  unfolding drain
  drain-Holds zero buf next h = (tt, h)
  drain-Holds (suc fuel) buf next h = elim (Option-cases (lookup next buf)) [
    | inl e ↦ rw (e, drain) (tt, h)
    | inr (p, e) ↦
        let (all, rest) =
          drain-Holds fuel (remove next buf) (next + 1)
            (λ k q f. h k q (ground (arith, lookup-remove next k buf))) in
        rw (e, drain) ((h next p e, all), rest)
  ]

  deliver-Holds :
      (s : FamilyReorderState) (pkg : DataPackage)
      → P pkg
      → Holds P s.buffer
      → All P (delivered (deliver_from s pkg).0) × Holds P (deliver_from s pkg).1.buffer
  unfolding deliver_from rebuild_bitmap
  deliver-Holds s pkg p h =
      let (all, rest) = drain-Holds (length s.buffer) s.buffer (s.next_expected_seq + 1) h in
      ((p, all), rest)

  store-Holds :
      (s : FamilyReorderState) (pkg : DataPackage)
      → P pkg
      → Holds P s.buffer
      → Holds P (store s pkg).buffer
  unfolding store rebuild_bitmap
  store-Holds s pkg p h k q f = elim (Bool-cases (pkg.seq == k)) [
    | inl e ↦ subst P (cc (rw (lookup-insert, e) at f)) p
    | inr e ↦ h k q (rw (lookup-insert, e) at f)
  ]

  push-Holds :
      (s : FamilyReorderState) (pkg : DataPackage)
      → P pkg
      → Holds P s.buffer
      → All P (delivered (push_package s pkg).0) × Holds P (push_package s pkg).1.buffer
  unfolding push_package
  push-Holds s pkg p h = elim (Bool-cases (is_some s.closed)) [
    | inl c ↦ simp c (tt, h)
    | inr c ↦ elim (Bool-cases (ltb pkg.seq s.next_expected_seq || contains_key pkg.seq s.buffer)) [
      | inl d ↦ simp (c, d) (tt, h)
      | inr d ↦ elim (Bool-cases (pkg.seq == s.next_expected_seq)) [
        | inl n ↦ simp (c, d, n) (deliver-Holds s pkg p h)
        | inr n ↦ elim (Bool-cases (leb (window s) (pkg.seq - s.next_expected_seq))) [
          | inl w ↦ simp (c, d, n, w) (tt, h)
          | inr w ↦ elim (Bool-cases (is_new_highest s.highest_seen pkg.seq)) [
            | inl g ↦ simp (c, d, n, w, g) (tt, store-Holds s pkg p h)
            | inr g ↦ simp (c, d, n, w, g) (tt, store-Holds s pkg p h)
          ]
        ]
      ]
    ]
  ]

  push_all-Holds :
      (ps : List DataPackage) (s : FamilyReorderState)
      → All P ps
      → Holds P s.buffer
      → All P (push_all s ps).0
  unfolding push_all
  push_all-Holds [] s a h = tt
  push_all-Holds (p ∷ ps) s (a, as') h =
      let (all, rest) = push-Holds s p a h in
      All-append P (delivered (push_package s p).0) _ all
        (push_all-Holds ps (push_package s p).1 as' rest)

All-In {ℓ} : {A : Type ℓ} (xs : List A) → All (λ x. In x xs) xs
All-In {A} xs = go xs (λ x i. i)
  where
    go : (ys : List A) → ((x : A) → In x ys → In x xs) → All (λ x. In x xs) ys
    go [] h = tt
    go (y ∷ ys) h = (h y (head refl), go ys (λ x i. h x (later i)))

-- From a new family, any packages in any order, with repetitions and losses: what is handed on are
-- packages that were pushed, numbered from the start without a gap or a repetition, and the next
-- expected number is the one after them.
pub push_all_consecutive :
    (family_id : Text) (start_seq reorder_window repair_deadline_ms : ℕ) (ps : List DataPackage)
    → let s = new_family family_id start_seq reorder_window repair_deadline_ms in
      let (out, s') = push_all s ps in
      IsRun start_seq out × All (λ p. In p ps) out × (s'.next_expected_seq ≡ start_seq + length out)
push_all_consecutive family_id start_seq reorder_window repair_deadline_ms ps =
    let s = new_family family_id start_seq reorder_window repair_deadline_ms in
    let (run, moved, valid) =
      push_all-IsRun ps s
        (new_family-IsValid family_id start_seq reorder_window repair_deadline_ms) in
    unfold new_family in (run, push_all-Holds ps s (All-In ps) (λ k p e. absurd (cc e)), moved)
