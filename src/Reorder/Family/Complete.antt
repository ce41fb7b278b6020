-- ===== src/Reorder/Family/Complete.antt =====
-- Nothing that is pushed into an open family is lost.
use meshbus_rs.Prelude.{ℕ, ◌+◌, ◌-◌, ◌≤◌, ◌<◌, ◌==◌, ltb, leb, nat_eq, length, Text}
use meshbus_rs.Prelude.{Bool, true, ◌||◌, List, [], ◌∷◌, none, is_some, In, head, later}
use meshbus_rs.Prelude.{
  contains_key, contains_key-insert, ◌≡◌, ◌≢◌, refl, sym, subst, arith, inl, inr, Bool-cases,
}
use native.Mathlib.Decide.{dec_le}
use meshbus_rs.MeshProto.Types.{DataPackage}
use meshbus_rs.Reorder.Family.{FamilyReorderState, new_family, window}
use meshbus_rs.Reorder.Family.{rebuild_bitmap, deliver_from, store, push_package, is_new_highest}
use meshbus_rs.Reorder.Family.Deliver.{drain-Drained}
use meshbus_rs.Reorder.Family.Invariant.{IsValid, push_package-Pushed, new_family-IsValid}
use meshbus_rs.Reorder.Family.Stream.{push_all, push_all-IsRun}

-- The number is below the next expected one, or its package is buffered.
abbrev is_known : FamilyReorderState → ℕ → Bool
is_known s k = ltb k s.next_expected_seq || contains_key k s.buffer

-- If the family is open after a push, it was open before, and knows all it knew and the package.
abbrev Remembers : FamilyReorderState → ℕ → FamilyReorderState → Type 0
Remembers s seq t =
    t.closed ≡ none
    → (s.closed ≡ none) × ((k : ℕ) → is_known s k || (k == seq) ≡ true → is_known t k ≡ true)

module _ (s : FamilyReorderState) (pkg : DataPackage) where
  deliver-Remembers :
      IsValid s → pkg.seq ≡ s.next_expected_seq → Remembers s pkg.seq (deliver_from s pkg).1
  unfolding deliver_from rebuild_bitmap
  deliver-Remembers v e still =
      let d =
        drain-Drained (length s.buffer) s.buffer (s.next_expected_seq + 1) (omega arith) v.keyed in
      (still, λ k h. ground (arith, e, h, d.moved, d.rest k))

  store-Remembers : Remembers s pkg.seq (store s pkg)
  unfolding store rebuild_bitmap
  store-Remembers still =
      (still, λ k h. ground (arith, h, contains_key-insert pkg.seq k pkg s.buffer))

  push-Remembers : IsValid s → Remembers s pkg.seq (push_package s pkg).1
  unfolding push_package
  push-Remembers v = elim (Bool-cases (is_some s.closed)) [
    | inl c ↦ simp c (λ still. absurd (cc (rw still at c)))
    | inr c ↦ elim (Bool-cases (ltb pkg.seq s.next_expected_seq || contains_key pkg.seq s.buffer)) [
      | inl d ↦ simp (c, d) (λ still. (still, λ k h. ground (arith, h, d)))
      | inr d ↦ elim (Bool-cases (pkg.seq == s.next_expected_seq)) [
        | inl n ↦ simp (c, d, n) (deliver-Remembers v (ground arith))
        | inr n ↦ elim (Bool-cases (leb (window s) (pkg.seq - s.next_expected_seq))) [
          | inl w ↦ simp (c, d, n, w) (λ still. absurd (cc still))
          | inr w ↦ elim (Bool-cases (is_new_highest s.highest_seen pkg.seq)) [
            | inl g ↦ simp (c, d, n, w, g) store-Remembers
            | inr g ↦ simp (c, d, n, w, g) store-Remembers
          ]
        ]
      ]
    ]
  ]

-- What a list's elements satisfy, from its head and its tail.
In-split :
    {P : DataPackage → Type 0} (q : DataPackage) (ps : List DataPackage)
    → P q
    → ((p : DataPackage) → In p ps → P p)
    → (p : DataPackage) → In p (q ∷ ps)
    → P p
In-split {P} q ps h hs p (head e) = subst (λ t. P t) (sym e) h
In-split q ps h hs p (later i) = hs p i

push_all_remembers :
    (ps : List DataPackage) (s : FamilyReorderState)
    → IsValid s
    → (push_all s ps).1.closed ≡ none
    → ((k : ℕ) → is_known s k ≡ true → is_known (push_all s ps).1 k ≡ true)
      × ((p : DataPackage) → In p ps → is_known (push_all s ps).1 p.seq ≡ true)
      × (s.closed ≡ none)
unfolding push_all
push_all_remembers [] s v still = ((λ k h. h), (λ p i. elim i [ ]), still)
push_all_remembers (q ∷ ps) s v still =
    let pushed = push_package-Pushed s q v in
    let (known, all, still1) = push_all_remembers ps (push_package s q).1 pushed.valid still in
    let (still0, step) = push-Remembers s q v still1 in
    (
      (λ k h. known k (step k (rw h refl))),
      In-split {P = λ p. is_known (push_all (push_package s q).1 ps).1 p.seq ≡ true} q ps
          (known q.seq (step q.seq (ground arith))) all,
      still0,
    )

-- A number at which the family stands was not pushed.
not_pushed :
    (t : FamilyReorderState) (ps : List DataPackage)
    → IsValid t
    → ((p : DataPackage) → In p ps → is_known t p.seq ≡ true)
    → (p : DataPackage) → In p ps
    → p.seq ≢ t.next_expected_seq
not_pushed t ps v all p i e = ground (arith, e, all p i, v.ahead p.seq)

-- If the numbers from the start on are pushed, `n` of them in whatever order, among any other
-- packages, and the family is still open, then at least `n` packages have been handed on.
pub push_all_complete :
    (family_id : Text) (start_seq reorder_window repair_deadline_ms n : ℕ) (ps : List DataPackage)
    → ((k : ℕ) → start_seq ≤ k → k < start_seq + n → (p : DataPackage) × In p ps × (p.seq ≡ k))
    → (push_all (new_family family_id start_seq reorder_window repair_deadline_ms) ps).1.closed
      ≡ none
    → n ≤ length (push_all (new_family family_id start_seq reorder_window repair_deadline_ms) ps).0
push_all_complete family_id start_seq reorder_window repair_deadline_ms n ps pushed still =
    let s = new_family family_id start_seq reorder_window repair_deadline_ms in
    let v = new_family-IsValid family_id start_seq reorder_window repair_deadline_ms in
    let (run, moved, valid) = push_all-IsRun ps s v in
    let (known, all, _) = push_all_remembers ps s v still in
    elim (dec_le n (length (push_all s ps).0)) [
      | yes le ↦ le
      | no gt ↦
          let at : (push_all s ps).1.next_expected_seq ≡ start_seq + length (push_all s ps).0 =
            unfold new_family in moved in
          let (p, i, e) =
            pushed (push_all s ps).1.next_expected_seq (omega (arith, at))
              (omega (arith, at, gt)) in
          absurd (not_pushed (push_all s ps).1 ps valid all p i e)
    ]
