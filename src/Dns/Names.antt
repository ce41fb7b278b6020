-- ===== src/Dns/Names.antt =====
-- lib/mb-proto-dns/src/decode.rs: compressed names.
use meshbus_rs.Prelude.{subst, ◌&&◌, text_eq, strip_suffix, is_some}
use meshbus_rs.Prelude.{◌-◌}
use meshbus_rs.Prelude.{
  ℕ, zero, suc, ◌+◌, ◌*◌, ◌%◌, ◌≡◌, ◌≢◌, ◌≤◌, ◌<◌, ◌==◌, leb, refl, arith, Bool, true, not,
  if◌then◌else◌, Bool-cases, Result-cases, ◌∙◌, ap, inl, inr,
}
use meshbus_rs.Prelude.{
  Text, Bytes, byte_at, slice, length, [], ◌∷◌, ◌++◌, map, all, is_empty, Result, ok, err, ◌>>=◌,
  >>=-eq-ok,
}
use meshbus_rs.Dns.{with_dot, DecodeError, Name, is_ascii, lower, from_ascii}

-- A pointer at `pos`: it must be whole, and lead to an earlier place. `jump` goes on there.
unfoldable pub pointer :
    Bytes → (ℕ → Text → Result DecodeError (Text × ℕ)) → ℕ → Text → Result DecodeError (Text × ℕ)
pointer buf jump pos out =
    let target = byte_at buf pos % 64 * 256 + byte_at buf (pos + 1) in
    if leb (length buf) (pos + 1)
    then err (DecodeError.truncated pos)
    else if leb pos target
    then err DecodeError.compression_loop
    else jump target out >>= λ r. ok (r.0, pos + 2)

-- The loop over the labels from `pos`, and the place behind them.
unfoldable pub labels_from :
    Bytes
    → (ℕ → Text → Result DecodeError (Text × ℕ))
    → ℕ
    → ℕ
    → Text
    → Result DecodeError (Text × ℕ)
labels_from buf jump zero pos out = err DecodeError.stuck
labels_from buf jump (suc fuel) pos out =
    let len = byte_at buf pos in
    let label = slice buf (pos + 1) len in
    let next =
      labels_from buf jump fuel (pos + 1 + len) (out ++ (map lower label ++ (b'.' ∷ []))) in
    if leb (length buf) pos
    then err (DecodeError.truncated pos)
    else if len == 0
    then ok (out, pos + 1)
    else if leb 192 len
    then pointer buf jump pos out
    else if leb 64 len
    then err (DecodeError.invalid_label len)
    else if not (leb (pos + 1 + len) (length buf))
    then err (DecodeError.truncated pos)
    else if not (all is_ascii label)
    then err DecodeError.not_utf8
    else next

-- `jumps` counts up to 16.
unfoldable pub follow : Bytes → ℕ → ℕ → Text → Result DecodeError (Text × ℕ)
follow buf zero pos out = err DecodeError.compression_loop
follow buf (suc hops) pos out = labels_from buf (follow buf hops) (length buf + 1) pos out

-- The name, and the cursor behind it.
unfoldable pub decode_name : Bytes → ℕ → Result DecodeError (Name × ℕ)
decode_name buf pos = do
  parts ← labels_from buf (follow buf 16) (length buf + 1) pos []
  name ← from_ascii (if is_empty parts.0 then b'.' ∷ [] else parts.0)
  ok (name, parts.1)

abbrev Ends : (ℕ → Text → Result DecodeError (Text × ℕ)) → Type 0
Ends jump = (p : ℕ) (o : Text) → jump p o ≢ err DecodeError.stuck

pointer-Ends :
    (buf : Bytes) (jump : ℕ → Text → Result DecodeError (Text × ℕ)) (pos : ℕ) (out : Text)
    → Ends jump
    → pointer buf jump pos out ≢ err DecodeError.stuck
unfolding pointer
pointer-Ends buf jump pos out h e =
    ground (arith, h (byte_at buf pos % 64 * 256 + byte_at buf (pos + 1)) out)

labels_from-Ends :
    (buf : Bytes) (jump : ℕ → Text → Result DecodeError (Text × ℕ)) (fuel pos : ℕ) (out : Text)
    → Ends jump
    → length buf - pos < fuel
    → labels_from buf jump fuel pos out ≢ err DecodeError.stuck
unfolding labels_from
labels_from-Ends buf jump zero pos out h k e = absurd (omega (arith, k))
labels_from-Ends buf jump (suc fuel) pos out h k e =
    let len = byte_at buf pos in
    let label = slice buf (pos + 1) len in
    let ih = λ (o : length buf - (pos + 1 + len) < fuel).
      labels_from-Ends buf jump fuel (pos + 1 + len) (out ++ (map lower label ++ (b'.' ∷ []))) h
        o in
    ground (arith, pointer-Ends buf jump pos out h, ih)

follow-Ends : (buf : Bytes) (hops : ℕ) → Ends (follow buf hops)
unfolding follow
follow-Ends buf zero p o e = absurd (cc e)
follow-Ends buf (suc hops) p o e =
    labels_from-Ends buf (follow buf hops) (length buf + 1) p o (follow-Ends buf hops) (omega arith)
      e

from_ascii-ne-stuck : (s : Text) → from_ascii s ≢ err DecodeError.stuck
unfolding from_ascii
from_ascii-ne-stuck s e = ground arith

-- The decoding of a name ends with a name or an error of the code, on any bytes and from any place: the
-- loop needs no more rounds than there are bytes, between two pointers.
pub decode_name-ne-stuck : (buf : Bytes) (pos : ℕ) → decode_name buf pos ≢ err DecodeError.stuck
unfolding decode_name
decode_name-ne-stuck buf pos e =
    elim (Result-cases (labels_from buf (follow buf 16) (length buf + 1) pos [])) [
      | inr (x, p) ↦
          let w : x ≡ DecodeError.stuck = cc (rw (p) at e) in
          labels_from-Ends buf (follow buf 16) (length buf + 1) pos [] (follow-Ends buf 16)
            (omega arith) (p ∙ ap (λ (z : DecodeError). err z) w)
      | inl (parts, p) ↦
          elim (Result-cases (from_ascii (if is_empty parts.0 then b'.' ∷ [] else parts.0))) [
            | inl (name, q) ↦ absurd (cc (rw (p, q) at e))
            | inr (x, q) ↦
                let w : x ≡ DecodeError.stuck = cc (rw (p, q) at e) in
                from_ascii-ne-stuck (if is_empty parts.0 then b'.' ∷ [] else parts.0)
                  (q ∙ ap (λ (z : DecodeError). err z) w)
          ]
    ]

-- Every step of the loop moves on, and stays in the buffer.
pointer_bounds :
    (buf : Bytes) (jump : ℕ → Text → Result DecodeError (Text × ℕ)) (pos : ℕ) (out : Text)
    (r : Text × ℕ)
    → pointer buf jump pos out ≡ ok r
    → (pos < r.1) × (r.1 ≤ length buf)
unfolding pointer
pointer_bounds buf jump pos out r h = ground arith

labels_from_bounds :
    (buf : Bytes) (jump : ℕ → Text → Result DecodeError (Text × ℕ)) (fuel pos : ℕ) (out : Text)
    (r : Text × ℕ)
    → labels_from buf jump fuel pos out ≡ ok r
    → (pos < r.1) × (r.1 ≤ length buf)
unfolding labels_from
labels_from_bounds buf jump zero pos out r h = absurd (cc h)
labels_from_bounds buf jump (suc fuel) pos out r h =
    let len = byte_at buf pos in
    let label = slice buf (pos + 1) len in
    ground (
      arith,
      pointer_bounds buf jump pos out r,
      labels_from_bounds buf jump fuel (pos + 1 + len) (out ++ (map lower label ++ (b'.' ∷ []))) r,
    )

-- A byte of a canonical name: ASCII, and no capital letter.
abbrev pub is_lower_ascii : ℕ → Bool
is_lower_ascii b = leb b 127 && not (leb b'A' b && leb b b'Z')

abbrev pub IsCanonical : Name → Type 0
IsCanonical name =
    (all is_lower_ascii name.canonical ≡ true)
    × (is_some (strip_suffix (b'.' ∷ []) name.canonical) ≡ true)

all-append : (p : ℕ → Bool) (xs ys : Text) → all p (xs ++ ys) ≡ (all p xs && all p ys)
all-append p [] ys = refl
all-append p (x ∷ xs) ys = ground (arith, all-append p xs ys)

all-lower : (s : Text) → all is_ascii s ≡ true → all is_lower_ascii (map lower s) ≡ true
unfolding lower
all-lower [] h = refl
all-lower (c ∷ cs) h = ground (arith, all-lower cs)

strip_suffix-dot : (s : Text) → is_some (strip_suffix (b'.' ∷ []) (s ++ (b'.' ∷ []))) ≡ true
unfolding strip_suffix text_eq
strip_suffix-dot [] = refl
strip_suffix-dot (c ∷ cs) = ground (arith, strip_suffix-dot cs)

with_dot-lower :
    (s : Text) → all is_lower_ascii s ≡ true → IsCanonical (record { canonical = with_dot s })
unfolding with_dot
with_dot-lower s h = elim (Bool-cases (is_some (strip_suffix (b'.' ∷ []) s))) [
  | inl e ↦ rw (e) (h, e)
  | inr e ↦ rw (e) (rw (all-append is_lower_ascii s (b'.' ∷ []), h) refl, strip_suffix-dot s)
]

from_ascii-IsCanonical : (s : Text) (name : Name) → from_ascii s ≡ ok name → IsCanonical name
unfolding from_ascii
from_ascii-IsCanonical s name h = elim (Bool-cases (is_empty s)) [
  | inl e ↦ absurd (cc (rw (e) at h))
  | inr e ↦ elim (Bool-cases (all is_ascii s)) [
    | inr f ↦ absurd (cc (rw (e, f) at h))
    | inl f ↦
        let made : name ≡ record { canonical = with_dot (map lower s) } = cc (rw (e, f) at h) in
        rw (made) (with_dot-lower (map lower s) (all-lower s f))
  ]
]

-- A decoded name is of ASCII bytes without capitals and ends with a dot, and the cursor has moved on and is
-- still in the buffer, wherever the name's pointers lead.
pub decode_name-IsCanonical :
    (buf : Bytes) (pos : ℕ) {name : Name} {end : ℕ}
    → decode_name buf pos ≡ ok (name, end)
    → IsCanonical name × (pos < end) × (end ≤ length buf)
unfolding decode_name
decode_name-IsCanonical buf pos {name} {end} h =
    let (parts, p, h1) = >>=-eq-ok (labels_from buf (follow buf 16) (length buf + 1) pos []) h in
    let (made, q, h2) =
      >>=-eq-ok (from_ascii (if is_empty parts.0 then b'.' ∷ [] else parts.0)) h1 in
    let canonical =
      from_ascii-IsCanonical (if is_empty parts.0 then b'.' ∷ [] else parts.0) made q in
    let e : made ≡ name = cc in
    let e' : parts.1 ≡ end = cc in
    let (k, l) = labels_from_bounds buf (follow buf 16) (length buf + 1) pos [] parts p in
    (subst (λ n. IsCanonical n) e canonical, omega (arith, k, e'), omega (arith, l, e'))
