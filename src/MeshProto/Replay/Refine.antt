-- ===== src/MeshProto/Replay/Refine.antt =====
-- The window against its specification: the list of the counters that were accepted.
use meshbus_rs.Prelude.{ℕ, ◌+◌, ◌-◌, ◌*◌, ◌≤◌, ◌<◌, ltb, leb, max, nat_eq}
use meshbus_rs.Prelude.{Bool, true, false, not, ◌||◌, List, [], ◌∷◌, length, length-replicate}
use meshbus_rs.Prelude.{
  contains, is_empty, Result, ok, err, if◌then◌else◌, ◌≡◌, refl, arith, inl, inr,
}
use meshbus_rs.Prelude.{Bool-cases}
use meshbus_rs.MeshProto.Replay.{MeshSecError, Window, new_window, test, set_counter, advance}
use meshbus_rs.MeshProto.Replay.{check_window}
use meshbus_rs.MeshProto.Replay.Bitmap.{test-set_counter, length-set_counter, test-clear_range}
use meshbus_rs.MeshProto.Replay.Bitmap.{length-clear_range, test-replicate}

abbrev pub max_of : List ℕ → ℕ
max_of [] = 0
max_of (c ∷ cs) = max c (max_of cs)

-- RFC 4303's rule: a counter is refused if it lies `window_bits` or more below the highest accepted
-- one, or was accepted before.
abbrev pub accept : ℕ → List ℕ → ℕ → Result MeshSecError (Unit {0}) × List ℕ
accept window_bits accepted c =
    if is_empty accepted || ltb (max_of accepted) c
    then (ok tt, c ∷ accepted)
    else if leb window_bits (max_of accepted - c)
    then (err MeshSecError.replay_too_old, accepted)
    else if contains c accepted
    then (err MeshSecError.replay, accepted)
    else (ok tt, c ∷ accepted)

-- A window that holds the accepted counters. `fits` is what the bits must suffice for.
pub record Represents (window_bits : ℕ) (w : Window) (accepted : List ℕ) : Type 0 where
  pub seen_is : w.seen ≡ not (is_empty accepted)
  pub highest_is : w.highest ≡ max_of accepted
  pub some_word : 0 < length w.bits
  pub fits : window_bits ≤ length w.bits * 64
  pub fresh : is_empty accepted ≡ true → (d : ℕ) → test w.bits d ≡ false
  pub marks :
      (d : ℕ) → d ≤ w.highest → w.highest < d + window_bits → test w.bits d ≡ contains d accepted

pub contains_above : (accepted : List ℕ) (d : ℕ) → max_of accepted < d → contains d accepted ≡ false
contains_above [] d h = refl
contains_above (c ∷ cs) d h = ground (arith, contains_above cs d)

pub new_window-Represents :
    (window_bits words : ℕ)
    → 0 < words
    → window_bits ≤ words * 64
    → Represents window_bits (new_window words) []
unfolding new_window
new_window-Represents window_bits words h k = record {
  seen_is = refl;
  highest_is = refl;
  some_word = rw length-replicate h;
  fits = rw length-replicate k;
  fresh = λ e d. test-replicate words d;
  marks = λ d a b. test-replicate words d;
}

empty_max : (accepted : List ℕ) → is_empty accepted ≡ true → max_of accepted ≡ 0
empty_max [] e = refl
empty_max (c ∷ cs) e = cc

module _ {window_bits : ℕ} {w : Window} {accepted : List ℕ} (r : Represents window_bits w accepted)
    (c : ℕ) where
  length-advance : length (advance window_bits w c) ≡ length w.bits
  unfolding advance
  length-advance = ground (
    arith,
    length-replicate {A = ℕ} (length w.bits) 0,
    length-clear_range w.bits (w.highest + 1) (c - (w.highest + 1)),
  )

  -- After a move to a new highest counter the marks are those of the accepted counters.
  test-advance :
      (d : ℕ)
      → w.highest < c
      → d < c
      → c < d + window_bits
      → test (advance window_bits w c) d ≡ contains d accepted
  unfolding advance
  test-advance d h k l = ground (
    arith,
    r.highest_is,
    r.fits,
    test-replicate (length w.bits) d,
    contains_above accepted d,
    test-clear_range w.bits (w.highest + 1) (c - (w.highest + 1)) d r.some_word,
    r.marks d,
  )

  -- The three ways of accepting a counter.
  first-Represents :
      is_empty accepted ≡ true
      → Represents window_bits
          (record { highest = c; seen = true; bits = set_counter w.bits c })
          (c ∷ accepted)
  first-Represents e = record {
    seen_is = refl;
    highest_is = ground (arith, only_max);
    some_word = omega (arith, r.some_word, length-set_counter w.bits c);
    fits = omega (arith, r.fits, length-set_counter w.bits c);
    fresh = λ e' d. cc;
    marks = λ d h k. ground (
      arith,
      r.fits,
      test-set_counter w.bits c d r.some_word,
      r.fresh e d,
      contains_above accepted d,
      only_max,
    );
  }
    where
      only_max : max_of accepted ≡ 0
      only_max = empty_max accepted e

  jump-Represents :
      w.highest < c
      → Represents window_bits
          (record { highest = c; seen = true; bits = set_counter (advance window_bits w c) c })
          (c ∷ accepted)
  jump-Represents h = record {
    seen_is = refl;
    highest_is = omega (arith, r.highest_is);
    some_word =
        omega (arith, r.some_word, length-set_counter (advance window_bits w c) c, length-advance);
    fits = omega (arith, r.fits, length-set_counter (advance window_bits w c) c, length-advance);
    fresh = λ e' d. cc;
    marks = λ d k l. ground (
      arith,
      r.fits,
      r.some_word,
      length-advance,
      test-set_counter (advance window_bits w c) c d,
      test-advance d h,
    );
  }

  fill-Represents :
      c ≤ w.highest
      → w.highest < c + window_bits
      → Represents window_bits
          (record { highest = w.highest; seen = true; bits = set_counter w.bits c })
          (c ∷ accepted)
  fill-Represents h k = record {
    seen_is = refl;
    highest_is = omega (arith, r.highest_is);
    some_word = omega (arith, r.some_word, length-set_counter w.bits c);
    fits = omega (arith, r.fits, length-set_counter w.bits c);
    fresh = λ e' d. cc;
    marks = λ d a b. ground (arith, r.fits, test-set_counter w.bits c d r.some_word, r.marks d);
  }

  -- `check_and_insert` answers by the rule, and the window goes on holding the accepted counters.
  pub check_window_refines :
      let (answer, w') = check_window window_bits w c in
      let (answer', accepted') = accept window_bits accepted c in
      (answer ≡ answer') × Represents window_bits w' accepted'
  unfolding check_window
  check_window_refines = elim (Bool-cases (is_empty accepted)) [
    | inl e ↦ simp (seen_as e, e) (refl, first-Represents e)
    | inr e ↦ elim (Bool-cases (ltb w.highest c)) [
      | inl h ↦ simp (seen_as e, e, ← r.highest_is, h) (refl, jump-Represents (ground arith))
      | inr h ↦ elim (Bool-cases (leb window_bits (w.highest - c))) [
        | inl k ↦ simp (seen_as e, e, ← r.highest_is, h, k) (refl, r)
        | inr k ↦
            let mark : test w.bits c ≡ contains c accepted =
              r.marks c (ground arith) (ground arith) in
            elim (Bool-cases (contains c accepted)) [
              | inl m ↦ simp (seen_as e, e, ← r.highest_is, h, k, mark, m) (refl, r)
              | inr m ↦
                  simp (seen_as e, e, ← r.highest_is, h, k, mark, m)
                    (refl, fill-Represents (ground arith) (ground arith))
            ]
      ]
    ]
  ]
    where
      seen_as : {b : Bool} → is_empty accepted ≡ b → w.seen ≡ not b
      seen_as e = rw (← e) r.seen_is
