-- ===== src/Reorder/Family/Missing.antt =====
-- The missing ranges of an acknowledgement.
use meshbus_rs.Prelude.{ℕ, zero, suc, ◌+◌, ◌<◌, ltb, leb, nat_eq, any}
use meshbus_rs.Prelude.{Bool, true, false, not, ◌&&◌, ◌||◌, List, Option, none, some}
use meshbus_rs.Prelude.{contains_key, ◌≡◌, arith, any-append, Bool-cases, inl, inr}
use native.Mathlib.Decide.{dec_le}
use meshbus_rs.MeshProto.Types.{SeqRange}
use meshbus_rs.Reorder.Family.{Packages, FamilyReorderState, closed_run, next_run, missing_from}
use meshbus_rs.Reorder.Family.{missing_ranges_of, missing_up_to}

abbrev pub in_range : ℕ → SeqRange → Bool
in_range x r = leb r.start x && leb x r.last

-- The numbers that the ranges name.
abbrev pub names : List SeqRange → ℕ → Bool
names ranges x = any (in_range x) ranges

abbrev in_run : Option ℕ → ℕ → ℕ → Bool
in_run none seq x = false
in_run (some start) seq x = leb start x && ltb x seq

abbrev IsBelow : Option ℕ → ℕ → Type 0
IsBelow none seq = Unit {0}
IsBelow (some start) seq = start < seq

same_key : (buf : Packages) (k j : ℕ) → k ≡ j → contains_key k buf ≡ contains_key j buf
same_key buf k j e = rw e

next-IsBelow :
    (seq : ℕ) (run : Option ℕ) → IsBelow run seq → IsBelow (next_run false seq run) (seq + 1)
unfolding next_run
next-IsBelow seq none b = omega arith
next-IsBelow seq (some start) b = omega arith

-- One number that is there, and one that is not, before the rest of the scan.
present :
    (buf : Packages) (highest seq n x : ℕ) (run : Option ℕ) {rest : Bool}
    → seq + suc n ≡ highest + 1
    → IsBelow run seq
    → contains_key seq buf ≡ true
    → rest ≡ (leb (seq + 1) x && (leb x highest && not (contains_key x buf)))
    → (names (closed_run true seq run) x || rest)
      ≡ (in_run run seq x || (leb seq x && (leb x highest && not (contains_key x buf))))
unfolding closed_run
present buf highest seq n x none e b there ih = ground (arith, same_key buf seq x)
present buf highest seq n x (some start) e b there ih = ground (arith, same_key buf seq x)

absent :
    (buf : Packages) (highest seq n x : ℕ) (run : Option ℕ) {rest : Bool}
    → seq + suc n ≡ highest + 1
    → IsBelow run seq
    → contains_key seq buf ≡ false
    → rest ≡ (
        in_run (next_run false seq run) (seq + 1) x
        || (leb (seq + 1) x && (leb x highest && not (contains_key x buf))))
    → (names (closed_run false seq run) x || rest)
      ≡ (in_run run seq x || (leb seq x && (leb x highest && not (contains_key x buf))))
unfolding closed_run next_run
absent buf highest seq n x none e b there ih = ground (arith, same_key buf seq x)
absent buf highest seq n x (some start) e b there ih = ground (arith, same_key buf seq x)

names-missing_from :
    (buf : Packages) (highest seq n x : ℕ) (run : Option ℕ)
    → seq + n ≡ highest + 1
    → IsBelow run seq
    → names (missing_from buf highest seq n run) x
      ≡ (in_run run seq x || (leb seq x && (leb x highest && not (contains_key x buf))))
unfolding missing_from next_run
names-missing_from buf highest seq zero x none e b = ground arith
names-missing_from buf highest seq zero x (some start) e b = ground arith
names-missing_from buf highest seq (suc n) x run e b =
    rw any-append (elim (Bool-cases (contains_key seq buf)) [
      | inl there ↦ rw there (
          present buf highest seq n x run e b there
            (names-missing_from buf highest (seq + 1) n x none (omega arith) tt))
      | inr gone ↦ rw gone (
          absent buf highest seq n x run e b gone (
            names-missing_from buf highest (seq + 1) n x (next_run false seq run) (omega arith)
              (next-IsBelow seq run b)))
    ])

nothing_missing :
    (buf : Packages) (highest seq n x : ℕ)
    → n ≡ 0
    → highest < seq
    → names (missing_from buf highest seq n none) x
      ≡ (leb seq x && (leb x highest && not (contains_key x buf)))
unfolding missing_from
nothing_missing buf highest seq zero x e h = ground arith
nothing_missing buf highest seq (suc n) x e h = absurd (omega arith)

-- If a package was seen, the acknowledgement names as missing exactly the numbers from the next
-- expected one up to the highest seen that are not buffered.
pub names-missing_ranges_of :
    (s : FamilyReorderState) (highest x : ℕ)
    → s.highest_seen ≡ some highest
    → names (missing_ranges_of s) x
      ≡ (leb s.next_expected_seq x && (leb x highest && not (contains_key x s.buffer)))
unfolding missing_ranges_of missing_up_to
names-missing_ranges_of s highest x e = simp e (elim (dec_le s.next_expected_seq (highest + 1)) [
  | yes le ↦ names-missing_from s.buffer highest s.next_expected_seq _ x none (omega arith) tt
  | no gt ↦ nothing_missing s.buffer highest s.next_expected_seq _ x (omega arith) (omega arith)
])
