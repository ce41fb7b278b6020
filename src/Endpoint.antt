-- ===== src/Endpoint.antt =====
-- lib/mb-endpoint/src/lib.rs: `host:port` texts. Indices are of bytes, as in the code.
use meshbus_rs.Prelude.{
  ℕ, zero, suc, ◌+◌, ◌-◌, ◌*◌, ◌/◌, ◌%◌, ltb, leb, ◌==◌, Text, Bool, true, false, ◌&&◌,
}
use meshbus_rs.Prelude.{
  List, [], ◌∷◌, ◌++◌, Option, none, some, length, strip_prefix, split_once, contains, nat_eq,
}
use meshbus_rs.Prelude.{Result, ok, err, ◌>>=◌, ◌>>◌, require, is_empty, if◌then◌else◌, not}
pub mod RoundTrip
pub mod Tests

pub record Endpoint : Type 0 where
  pub host : Text
  pub port : ℕ

pub data ParseError : Type 0 where
  empty_host missing_colon malformed_ipv6 : ParseError
  invalid_port : Text → ParseError
  host_too_long : ℕ → ParseError

unfoldable pub new_endpoint : Text → ℕ → Result ParseError Endpoint
new_endpoint host port = do
  require (not (is_empty host)) ParseError.empty_host
  require (leb (length host) 255) (ParseError.host_too_long (length host))
  require (not (port == 0)) (ParseError.invalid_port (b'0' ∷ []))
  ok (record { host = host; port = port })

-- The digits of a number below `10 ^ fuel`, without zeros in front.
unfoldable pub decimal : ℕ → ℕ → Text
decimal zero n = []
decimal (suc fuel) n =
    let front = decimal fuel (n / 10) in
    let digit = n % 10 + b'0' in if ltb n 10 then digit ∷ [] else front ++ (digit ∷ [])

-- `{}` of a `u16`: five digits are enough.
abbrev pub show_u16 : ℕ → Text
show_u16 n = decimal 5 n

unfoldable pub digits_from : ℕ → Text → Option ℕ
digits_from acc [] = some acc
digits_from acc (c ∷ cs) =
    if leb b'0' c && leb c b'9' then digits_from (acc * 10 + (c - b'0')) cs else none

unfoldable pub in_u16 : Option ℕ → Option ℕ
in_u16 none = none
in_u16 (some n) = if leb n 65535 then some n else none

-- `u16::from_str`: a plus sign may stand in front of at least one digit.
unfoldable pub parse_u16 : Text → Option ℕ
unfolding digits_from in_u16
parse_u16 [] = none
parse_u16 (c ∷ []) = in_u16 (digits_from 0 (c ∷ []))
parse_u16 (c ∷ d ∷ cs) =
    if c == b'+' then in_u16 (digits_from 0 (d ∷ cs)) else in_u16 (digits_from 0 (c ∷ d ∷ cs))

-- `rfind(sep)`: what stands before and after the last separator.
unfoldable pub rsplit_once : ℕ → Text → Option (Text × Text)
rsplit_once sep [] = none
rsplit_once sep (c ∷ cs) = elim (rsplit_once sep cs) [
  | some (a, b) ↦ some (c ∷ a, b)
  | none ↦ if c == sep then some ([], cs) else none
]

unfoldable pub found_or : {A : Type 0} → ParseError → Option A → Result ParseError A
found_or e none = err e
found_or e (some a) = ok a

unfoldable pub split_bracketed : Text → Result ParseError (Text × Text)
unfolding found_or
split_bracketed rest = do
  halves ← found_or ParseError.malformed_ipv6 (split_once b']' rest)
  port ← found_or ParseError.missing_colon (strip_prefix (b':' ∷ []) halves.1)
  ok (halves.0, port)

unfoldable pub split_host : Text → Option Text → Result ParseError (Text × Text)
unfolding split_bracketed found_or
split_host input (some rest) = split_bracketed rest
split_host input none = found_or ParseError.missing_colon (rsplit_once b':' input)

unfoldable pub parse : Text → Result ParseError Endpoint
unfolding split_host parse_u16 new_endpoint found_or
parse input = do
  parts ← split_host input (strip_prefix (b'[' ∷ []) input)
  port ← found_or (ParseError.invalid_port parts.1) (parse_u16 parts.1)
  new_endpoint parts.0 port

unfoldable pub display : Endpoint → Text
display e =
    if contains b':' e.host
    then b'[' ∷ (e.host ++ (b']' ∷ b':' ∷ show_u16 e.port))
    else e.host ++ (b':' ∷ show_u16 e.port)
