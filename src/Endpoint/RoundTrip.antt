-- ===== src/Endpoint/RoundTrip.antt =====
-- That lib/mb-endpoint/src/lib.rs reads back the texts that it writes.
use meshbus_rs.Prelude.{
  ℕ, zero, suc, ◌+◌, ◌-◌, ◌*◌, ◌/◌, ◌%◌, ◌≤◌, ◌<◌, ◌≡◌, ◌⊎◌, ◌∙◌, refl, arith, ltb,
}
use meshbus_rs.Prelude.{Text, true, false, inl, inr, Bool-cases, none, some}
use meshbus_rs.Prelude.{
  [], ◌∷◌, ◌++◌, length, strip_prefix, split_once, contains, nat_eq, is_empty, ap,
}
use meshbus_rs.Prelude.{ok}
use meshbus_rs.Endpoint.{
  Endpoint, new_endpoint, decimal, show_u16, digits_from, in_u16, parse_u16, rsplit_once, found_or,
  split_bracketed, split_host, parse, display,
}

abbrev power_of_ten : ℕ → ℕ
power_of_ten zero = 1
power_of_ten (suc k) = 10 * power_of_ten k

digits_from-snoc :
    (xs : Text) (acc d m : ℕ)
    → d < 10
    → digits_from acc xs ≡ some m
    → digits_from acc (xs ++ ((d + b'0') ∷ [])) ≡ some (m * 10 + d)
unfolding digits_from
digits_from-snoc [] acc d m h e = ground arith
digits_from-snoc (c ∷ cs) acc d m h e =
    ground (arith, digits_from-snoc cs (acc * 10 + (c - b'0')) d m)

digits_from-decimal : (fuel n : ℕ) → n < power_of_ten fuel → digits_from 0 (decimal fuel n) ≡ some n
unfolding decimal digits_from
digits_from-decimal zero n h = ground arith
digits_from-decimal (suc fuel) n h = elim (Bool-cases (ltb n 10)) [
  | inl y ↦ ground arith
  | inr e ↦
      let ih = digits_from-decimal fuel (n / 10) (omega arith) in
      let s = digits_from-snoc (decimal fuel (n / 10)) 0 (n % 10) (n / 10) (omega arith) ih in
      let q : n / 10 * 10 + n % 10 ≡ n = omega arith in rw (e) (rw (q) at s)
]

contains-digits_from : (s : Text) (acc m : ℕ) → digits_from acc s ≡ some m → contains b':' s ≡ false
unfolding digits_from
contains-digits_from [] acc m e = refl
contains-digits_from (c ∷ cs) acc m e =
    ground (arith, contains-digits_from cs (acc * 10 + (c - b'0')) m)

is_empty-decimal : (fuel n : ℕ) → is_empty (decimal (suc fuel) n) ≡ false
unfolding decimal
is_empty-decimal fuel n = ground (arith, is_empty-snoc (decimal fuel (n / 10)) (n % 10 + b'0'))
  where
    is_empty-snoc : (xs : Text) (d : ℕ) → is_empty (xs ++ (d ∷ [])) ≡ false
    is_empty-snoc [] d = refl
    is_empty-snoc (x ∷ xs) d = refl

parse_u16-digits_from :
    (s : Text) {n : ℕ}
    → is_empty s ≡ false
    → n ≤ 65535
    → digits_from 0 s ≡ some n
    → parse_u16 s ≡ some n
unfolding parse_u16 in_u16
parse_u16-digits_from [] b h e = cc
parse_u16-digits_from (c ∷ []) b h e = ground arith
parse_u16-digits_from (c ∷ d ∷ cs) b h e = unfold digits_from in ground arith

pub parse_u16-show_u16 : (n : ℕ) → n ≤ 65535 → parse_u16 (show_u16 n) ≡ some n
parse_u16-show_u16 n h =
    parse_u16-digits_from (show_u16 n) (is_empty-decimal 4 n) h
      (digits_from-decimal 5 n (omega arith))

contains-show_u16 : (n : ℕ) → n ≤ 65535 → contains b':' (show_u16 n) ≡ false
contains-show_u16 n h =
    contains-digits_from (show_u16 n) 0 n (digits_from-decimal 5 n (omega arith))

split_once-append :
    (sep : ℕ) (a b : Text) → contains sep a ≡ false → split_once sep (a ++ (sep ∷ b)) ≡ some (a, b)
unfolding split_once
split_once-append sep [] b h = ground arith
split_once-append sep (c ∷ cs) b h = ground (arith, split_once-append sep cs b)

rsplit_once-none : (sep : ℕ) (b : Text) → contains sep b ≡ false → rsplit_once sep b ≡ none
unfolding rsplit_once
rsplit_once-none sep [] h = refl
rsplit_once-none sep (c ∷ cs) h = ground (arith, rsplit_once-none sep cs)

rsplit_once-append :
    (sep : ℕ) (a b : Text) → contains sep b ≡ false → rsplit_once sep (a ++ (sep ∷ b)) ≡ some (a, b)
unfolding rsplit_once
rsplit_once-append sep [] b h = ground (arith, rsplit_once-none sep b)
rsplit_once-append sep (c ∷ cs) b h = ground (arith, rsplit_once-append sep cs b)

-- What `new_endpoint` has checked of its arguments.
pub new_endpoint-ok :
    (host : Text) (port : ℕ) {e : Endpoint}
    → new_endpoint host port ≡ ok e
    → (e ≡ record { host = host; port = port })
      × (0 < length host)
      × (length host ≤ 255)
      × (0 < port)
unfolding new_endpoint
new_endpoint-ok [] port h = cc
new_endpoint-ok (c ∷ cs) port h = ground arith

-- A host that holds a colon has no closing bracket, and any other does not start with a bracket.
abbrev pub Bracketable : Text → Type 0
Bracketable host =
    ((contains b':' host ≡ true) × (contains b']' host ≡ false))
    ⊎ ((contains b':' host ≡ false) × (strip_prefix (b'[' ∷ []) host ≡ none))

strip_prefix-display :
    (host rest : Text)
    → 0 < length host
    → strip_prefix (b'[' ∷ []) host ≡ none
    → strip_prefix (b'[' ∷ []) (host ++ rest) ≡ none
unfolding strip_prefix
strip_prefix-display [] rest h e = absurd (omega arith)
strip_prefix-display (c ∷ cs) rest h e = ground arith

split_host-display :
    (host : Text) (port : ℕ)
    → port ≤ 65535
    → 0 < length host
    → Bracketable host
    → (s : Text) → display (record { host = host; port = port }) ≡ s
    → split_host s (strip_prefix (b'[' ∷ []) s) ≡ ok (host, show_u16 port)
unfolding display split_host split_bracketed found_or strip_prefix
split_host-display host port h k (inl (colon, bracket)) s e =
    rw (← e, colon, strip_prefix, split_once-append b']' host (b':' ∷ show_u16 port) bracket)
split_host-display host port h k (inr (colon, bracket)) s e =
    rw (← e, colon, strip_prefix-display host (b':' ∷ show_u16 port) k bracket)
      (rw (rsplit_once-append b':' host (show_u16 port) (contains-show_u16 port h)) refl)

-- The text that `display` writes for an endpoint is read back as that endpoint, where `new_endpoint`
-- has made it from a host and a port below 65536, the host has no `]` if it has a colon, and does not
-- start with `[` if it has none.
pub parse-display :
    (host : Text) (port : ℕ) {e : Endpoint}
    → new_endpoint host port ≡ ok e
    → port ≤ 65535
    → Bracketable host
    → parse (display e) ≡ ok e
unfolding parse found_or
parse-display host port {e} h bound b =
    let (p, nonempty, _, _) = new_endpoint-ok host port h in
    rw
      (
        p,
        split_host-display host port bound nonempty b
            (display (record { host = host; port = port })) refl,
        parse_u16-show_u16 port bound,
      )
      (h ∙ ap ok p)
