-- ===== src/Dns/Framing.antt =====
-- lib/mb-proto-dns/src/framing.rs: messages on a byte stream, each behind its length.
use mathlib.Core.List.{append_assoc, append-nil}
use meshbus_rs.Prelude.{sym}
use meshbus_rs.Prelude.{
  ℕ, zero, suc, ap, ◌∙◌, All, ◌+◌, ◌≡◌, ◌≤◌, refl, arith, leb, true, if◌then◌else◌,
}
use meshbus_rs.Prelude.{
  Bytes, be16, u16_at, take, drop, take-append, drop-append, length, length-append, List, [], ◌∷◌,
  ◌++◌, Option, none, some,
}

unfoldable pub write_tcp_frame : Bytes → Bytes → Bytes
write_tcp_frame out msg = out ++ (be16 (length msg) ++ msg)

-- The message, and the bytes behind it.
unfoldable pub try_read_tcp_frame : Bytes → Option (Bytes × Bytes)
try_read_tcp_frame buf =
    let len = u16_at buf 0 in
    if leb 2 (length buf)
    then (if leb (2 + len) (length buf)
        then some (take len (drop 2 buf), drop len (drop 2 buf))
        else none)
    else none

-- The messages that a buffer holds whole, in order, and what is left; `fuel` bounds their number.
unfoldable pub read_all : ℕ → Bytes → List Bytes × Bytes
read_all zero buf = ([], buf)
read_all (suc fuel) buf = elim (try_read_tcp_frame buf) [
  | none ↦ ([], buf)
  | some (msg, rest) ↦ let (msgs, left) = read_all fuel rest in (msg ∷ msgs, left)
]

unfoldable pub write_all : List Bytes → Bytes → Bytes
write_all [] out = out
write_all (msg ∷ msgs) out = write_all msgs (write_tcp_frame out msg)

try_read-frame :
    (msg rest : Bytes)
    → length msg ≤ 65535
    → try_read_tcp_frame (be16 (length msg) ++ (msg ++ rest)) ≡ some (msg, rest)
unfolding try_read_tcp_frame
try_read-frame msg rest h =
    let buf = be16 (length msg) ++ (msg ++ rest) in
    let len : u16_at buf 0 ≡ length msg = omega arith in
    let deep : leb 2 (length buf) ≡ true = ground arith in
    let fits : leb (2 + length msg) (length buf) ≡ true = ground (arith, length-append msg rest) in
    rw (len, deep, fits, take-append msg rest, drop-append msg rest) refl

write_all-from : (msgs : List Bytes) (a : Bytes) → write_all msgs a ≡ a ++ write_all msgs []
unfolding write_all write_tcp_frame
write_all-from [] a = sym (append-nil a)
write_all-from (msg ∷ msgs) a =
    let f = be16 (length msg) ++ msg in
    write_all-from msgs (a ++ f)
    ∙ append_assoc a f (write_all msgs [])
    ∙ ap (λ (r : Bytes). a ++ r) (sym (write_all-from msgs f))

-- Messages of at most 65535 bytes that are written one after the other are read back in order, and what
-- stands behind them is left.
pub read_all-write_all :
    (msgs : List Bytes) (rest : Bytes)
    → All (λ m. length m ≤ 65535) msgs
    → read_all (length msgs) (write_all msgs [] ++ rest) ≡ (msgs, rest)
unfolding read_all write_all write_tcp_frame
read_all-write_all [] rest h = refl
read_all-write_all (msg ∷ msgs) rest (h, hs) =
    let front = be16 (length msg) ++ msg in
    let more = write_all msgs [] in
    let all : write_all msgs front ++ rest ≡ be16 (length msg) ++ (msg ++ (more ++ rest)) =
      ap (λ (r : Bytes). r ++ rest) (write_all-from msgs front)
      ∙ append_assoc front more rest
      ∙ append_assoc (be16 (length msg)) msg (more ++ rest) in
    let first = try_read-frame msg (more ++ rest) h in
    let later = read_all-write_all msgs rest hs in rw (all) (rw (first, later, read_all) refl)
