-- ===== src/Reorder/Family/Deliver.antt =====
-- The delivery loop: consecutive packages, and a buffer without them.
use meshbus_rs.Prelude.{ℕ, zero, suc, ◌+◌, ◌≤◌, ltb, leb, nat_eq, length, lookup}
use meshbus_rs.Prelude.{false, ◌&&◌, All, List, [], ◌∷◌, none, some}
use meshbus_rs.Prelude.{
  contains_key, remove, lookup-remove, length-remove_lt, if◌then◌else◌, Option-cases,
}
use meshbus_rs.Prelude.{◌≡◌, refl, sym, subst, arith, inl, inr}
use meshbus_rs.MeshProto.Types.{DataPackage}
use meshbus_rs.Reorder.Family.{Packages, drain}

-- Packages whose numbers are `start`, `start + 1` and so on.
abbrev pub IsRun : ℕ → List DataPackage → Type 0
IsRun start [] = Unit {0}
IsRun start (p ∷ ps) = (p.seq ≡ start) × IsRun (start + 1) ps

-- Each package stands under its own number.
abbrev pub IsKeyed : Packages → Type 0
IsKeyed buf = (k : ℕ) (p : DataPackage) → lookup k buf ≡ some p → p.seq ≡ k

remove-IsKeyed : (k : ℕ) (buf : Packages) → IsKeyed buf → IsKeyed (remove k buf)
remove-IsKeyed k buf h j p e = h j p (ground (arith, lookup-remove k j buf))

-- The package itself stands in a buffer under its number.
abbrev pub IsBuffered : Packages → DataPackage → Type 0
IsBuffered buf p = lookup p.seq buf ≡ some p

-- What stands in a buffer without a number stands in the whole buffer.
All-IsBuffered :
    (k : ℕ) (buf : Packages) (ps : List DataPackage)
    → All (IsBuffered (remove k buf)) ps
    → All (IsBuffered buf) ps
All-IsBuffered k buf [] h = tt
All-IsBuffered k buf (p ∷ ps) (h, hs) =
    (ground (arith, lookup-remove k p.seq buf), All-IsBuffered k buf ps hs)

-- What the loop does to a buffer, from a number on.
pub record Drained (buf : Packages) (next : ℕ) (out : List DataPackage × Packages × ℕ)
    : Type 0 where
  pub in_order : IsRun next out.0
  pub taken : All (IsBuffered buf) out.0
  pub moved : out.2 ≡ next + length out.0
  pub keyed : IsKeyed out.1
  pub rest : (k : ℕ) → lookup k out.1 ≡ (if leb next k && ltb k out.2 then none else lookup k buf)
  pub ended : contains_key out.2 out.1 ≡ false

stop :
    (buf : Packages) (next : ℕ)
    → lookup next buf ≡ none
    → IsKeyed buf
    → Drained buf next ([], buf, next)
stop buf next e keyed = record {
  in_order = tt;
  taken = tt;
  moved = omega arith;
  keyed = keyed;
  rest = λ k. ground arith;
  ended = rw e;
}

step :
    (buf : Packages) (next : ℕ) (p : DataPackage) (out : List DataPackage × Packages × ℕ)
    → lookup next buf ≡ some p
    → IsKeyed buf
    → Drained (remove next buf) (next + 1) out
    → Drained buf next (p ∷ out.0, out.1, out.2)
step buf next p out e keyed d = record {
  in_order = (keyed next p e, d.in_order);
  taken = (
    subst (λ k. lookup k buf ≡ some p) (sym (keyed next p e)) e,
    All-IsBuffered next buf out.0 d.taken,
  );
  moved = omega (arith, d.moved);
  keyed = d.keyed;
  rest = λ k. ground (arith, d.moved, d.rest k, lookup-remove next k buf);
  ended = d.ended;
}

-- Given as many rounds as packages are buffered, the delivery loop stops at the first number that is
-- not buffered: it hands on the packages that the buffer has from the given number up to there, each
-- unchanged and in order, and the buffer keeps the others, each under its own number.
pub drain-Drained :
    (fuel : ℕ) (buf : Packages) (next : ℕ)
    → length buf ≤ fuel
    → IsKeyed buf
    → Drained buf next (drain fuel buf next)
unfolding drain
drain-Drained zero [] next h keyed = record {
  in_order = tt;
  taken = tt;
  moved = omega arith;
  keyed = keyed;
  rest = λ k. ground arith;
  ended = refl;
}
drain-Drained zero (e ∷ buf) next h keyed = absurd (omega arith)
drain-Drained (suc fuel) buf next h keyed = elim (Option-cases (lookup next buf)) [
  | inl e ↦ rw (e, drain) (stop buf next e keyed)
  | inr (p, e) ↦
      rw (e, drain)
        (step buf next p _ e keyed (
          drain-Drained fuel (remove next buf) (next + 1)
            (omega (arith, length-remove_lt next buf (rw e))) (remove-IsKeyed next buf keyed)))
]
