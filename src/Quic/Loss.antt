-- ===== src/Quic/Loss.antt =====
-- lib/mb-quic/src/recovery.rs: the packets in flight of the three packet-number spaces. `sent` holds
-- them in the order of their numbers. A space is 0, 1 or 2; another one is a panic, `none`.
use meshbus_rs.Prelude.{
  ℕ, zero, suc, ◌+◌, ◌-◌, ◌*◌, ◌/◌, ◌^◌, ◌%◌, min, max, ltb, leb, Bool, ◌&&◌, ◌||◌, if◌then◌else◌,
  Option, none, some, List, [], ◌∷◌, ◌++◌, length, is_some, All, ◌<◌, arith,
}
use mathlib.Core.Option
use meshbus_rs.Quic.{wrap64}
use meshbus_rs.Quic.Frames.{AckRange}
use meshbus_rs.Quic.Recovery.{
  RttEstimator, default_rtt, on_sample, pto_base, Congestion, default_congestion, on_sent, on_acked,
  on_loss,
}

pub record SentPacket : Type 0 where
  pub pn : ℕ
  pub time_sent : ℕ
  pub size : ℕ
  pub ack_eliciting : Bool

pub record SpaceRecovery : Type 0 where
  pub sent : List SentPacket
  pub largest_acked : Option ℕ
  pub loss_time : Option ℕ
  pub last_ack_eliciting : Option ℕ

abbrev pub default_space : SpaceRecovery
default_space = record {
  sent = [];
  largest_acked = none;
  loss_time = none;
  last_ack_eliciting = none;
}

pub record LossRecovery : Type 0 where
  pub spaces : List SpaceRecovery
  pub rtt : RttEstimator
  pub cc : Congestion
  pub pto_count : ℕ
  pub max_ack_delay : ℕ

abbrev pub default_recovery : LossRecovery
default_recovery = record {
  spaces = default_space ∷ default_space ∷ default_space ∷ [];
  rtt = default_rtt;
  cc = default_congestion;
  pto_count = 0;
  max_ack_delay = 25000;
}

unfoldable pub space_at : ℕ → List SpaceRecovery → Option SpaceRecovery
space_at i [] = none
space_at zero (s ∷ rest) = some s
space_at (suc i) (s ∷ rest) = space_at i rest

unfoldable pub set_space : ℕ → SpaceRecovery → List SpaceRecovery → List SpaceRecovery
set_space i t [] = []
set_space zero t (s ∷ rest) = t ∷ rest
set_space (suc i) t (s ∷ rest) = s ∷ set_space i t rest

unfoldable pub insert_packet : SentPacket → List SentPacket → List SentPacket
insert_packet p [] = p ∷ []
insert_packet p (q ∷ sent) =
    let rest = insert_packet p sent in
    if ltb q.pn p.pn then q ∷ rest else if ltb p.pn q.pn then p ∷ q ∷ sent else p ∷ sent

unfoldable pub on_packet_sent : LossRecovery → ℕ → SentPacket → Option LossRecovery
unfolding on_sent insert_packet space_at set_space
on_packet_sent r space p = Option.map insert_into (space_at space r.spaces)
  where
    insert_into : SpaceRecovery → LossRecovery
    insert_into s =
        let last = if p.ack_eliciting then some p.time_sent else s.last_ack_eliciting in
        let t = record s { sent = insert_packet p s.sent; last_ack_eliciting = last } in
        record r { cc = on_sent r.cc p.size; spaces = set_space space t r.spaces }

-- The blocks of the later ranges, of which the last one before them begins at `lo`. A range longer
-- than what is left wraps around, as in a release build.
unfoldable pub later_blocks : ℕ → List AckRange → List (ℕ × ℕ)
later_blocks lo [] = []
later_blocks lo (r ∷ ranges) =
    let hi = lo - r.gap - 2 in
    let next = wrap64 (hi + 18446744073709551616 - r.range) in
    let rest = later_blocks next ranges in if ltb lo (r.gap + 2) then [] else (next, hi) ∷ rest

unfoldable pub acked_numbers : ℕ → ℕ → List AckRange → List (ℕ × ℕ)
unfolding later_blocks
acked_numbers largest first_range ranges =
    let lo = wrap64 (largest + 18446744073709551616 - first_range) in
    (lo, largest) ∷ later_blocks lo ranges

-- The packets of a block, in ascending order, and those that stay.
unfoldable pub take_block : ℕ → ℕ → List SentPacket → List SentPacket × List SentPacket
take_block lo hi [] = ([], [])
take_block lo hi (p ∷ sent) =
    let (newly, rest) = take_block lo hi sent in
    if leb lo p.pn && leb p.pn hi then (p ∷ newly, rest) else (newly, p ∷ rest)

unfoldable pub take_blocks : List (ℕ × ℕ) → List SentPacket → List SentPacket × List SentPacket
unfolding take_block
take_blocks [] sent = ([], sent)
take_blocks ((lo, hi) ∷ blocks) sent =
    let (newly, rest) = take_block lo hi sent in
    let (later, kept) = take_blocks blocks rest in (newly ++ later, kept)

-- The ack-eliciting packet of the greatest number, the last one of those.
unfoldable pub newest : List SentPacket → Option SentPacket
newest [] = none
newest (p ∷ ps) = newer p (newest ps)
  where
    newer : SentPacket → Option SentPacket → Option SentPacket
    newer p none = if p.ack_eliciting then some p else none
    newer p (some q) = if p.ack_eliciting && ltb q.pn p.pn then some p else some q

unfoldable pub ack_all : Congestion → List SentPacket → Congestion
unfolding on_acked
ack_all cc [] = cc
ack_all cc (p ∷ ps) = ack_all (on_acked cc p.size) ps

unfoldable pub sample_newest : Option SentPacket → ℕ → ℕ → ℕ → ℕ → RttEstimator → RttEstimator
unfolding on_sample
sample_newest none largest ack_delay max_delay now rtt = rtt
sample_newest (some p) largest ack_delay max_delay now rtt =
    if leb p.pn largest && leb largest p.pn
    then on_sample rtt (now - p.time_sent) ack_delay max_delay
    else rtt

unfoldable pub larger : Option ℕ → ℕ → ℕ
larger none n = n
larger (some m) n = max m n

unfoldable pub on_ack :
    LossRecovery → ℕ → ℕ → ℕ → List AckRange → ℕ → ℕ → Option (List SentPacket × LossRecovery)
unfolding acked_numbers take_blocks newest ack_all sample_newest larger space_at set_space
on_ack r space largest first_range ranges ack_delay now =
    Option.map settle (space_at space r.spaces)
  where
    settle : SpaceRecovery → List SentPacket × LossRecovery
    settle s =
        let (newly, kept) = take_blocks (acked_numbers largest first_range ranges) s.sent in
        let t = record s { largest_acked = some (larger s.largest_acked largest); sent = kept } in
        (
          newly,
          record {
            spaces = set_space space t r.spaces;
            rtt = sample_newest (newest newly) largest ack_delay r.max_ack_delay now r.rtt;
            cc = ack_all r.cc newly;
            pto_count = if leb 1 (length newly) then 0 else r.pto_count;
            max_ack_delay = r.max_ack_delay;
          },
        )

unfoldable pub loss_threshold : RttEstimator → ℕ
loss_threshold rtt = max (wrap64 (max rtt.latest rtt.smoothed * 9) / 8) 1000

unfoldable pub is_lost : ℕ → ℕ → ℕ → SentPacket → Bool
is_lost largest threshold now p =
    leb 3 (largest - p.pn) || leb (wrap64 (p.time_sent + threshold)) now

unfoldable pub earlier : Option ℕ → ℕ → ℕ
earlier none n = n
earlier (some m) n = min m n

-- The lost packets, those that stay, and the time at which the next of these is lost.
unfoldable pub split_lost :
    ℕ → ℕ → ℕ → List SentPacket → List SentPacket × List SentPacket × Option ℕ
unfolding is_lost earlier
split_lost largest threshold now [] = ([], [], none)
split_lost largest threshold now (p ∷ sent) =
    let (lost, kept, next) = split_lost largest threshold now sent in
    if leb largest p.pn
    then (lost, p ∷ kept, next)
    else if is_lost largest threshold now p
    then (p ∷ lost, kept, next)
    else (lost, p ∷ kept, some (earlier next (wrap64 (p.time_sent + threshold))))

unfoldable pub lost_bytes : List SentPacket → ℕ
lost_bytes [] = 0
lost_bytes (p ∷ lost) = wrap64 (p.size + lost_bytes lost)

unfoldable pub latest_sent : List SentPacket → ℕ
latest_sent [] = 0
latest_sent (p ∷ lost) = max p.time_sent (latest_sent lost)

unfoldable pub detect_in :
    LossRecovery → ℕ → ℕ → SpaceRecovery → Option ℕ → List SentPacket × LossRecovery
unfolding split_lost loss_threshold lost_bytes latest_sent on_loss set_space
detect_in r space now s none = ([], r)
detect_in r space now s (some largest) =
    let (lost, kept, next) = split_lost largest (loss_threshold r.rtt) now s.sent in
    let spaces = set_space space (record s { sent = kept; loss_time = next }) r.spaces in
    if leb 1 (length lost)
    then (
      lost,
      record r { spaces = spaces; cc = on_loss r.cc (lost_bytes lost) (latest_sent lost) },
    )
    else (lost, record r { spaces = spaces })

unfoldable pub detect_lost : LossRecovery → ℕ → ℕ → Option (List SentPacket × LossRecovery)
unfolding detect_in space_at
detect_lost r space now =
    Option.map (λ (s : SpaceRecovery). detect_in r space now s s.largest_acked)
      (space_at space r.spaces)

unfoldable pub earliest : List SpaceRecovery → Option ℕ
unfolding earlier
earliest [] = none
earliest (s ∷ spaces) = both s.loss_time (earliest spaces)
  where
    both : Option ℕ → Option ℕ → Option ℕ
    both none rest = rest
    both (some t) rest = some (earlier rest t)

unfoldable pub last_elicited : List SpaceRecovery → Option ℕ
unfolding larger
last_elicited [] = none
last_elicited (s ∷ spaces) = both s.last_ack_eliciting (last_elicited spaces)
  where
    both : Option ℕ → Option ℕ → Option ℕ
    both none rest = rest
    both (some t) rest = some (larger rest t)

-- The count of timeouts shifts by its lowest six bits, as in a release build.
unfoldable pub loss_timer : LossRecovery → Option ℕ
unfolding earliest last_elicited pto_base
loss_timer r =
    let pto = wrap64 (pto_base r.rtt r.max_ack_delay * 2 ^ (r.pto_count % 64)) in
    let deadline = Option.map (λ (last : ℕ). wrap64 (last + pto)) (last_elicited r.spaces) in
    if is_some (earliest r.spaces) then earliest r.spaces else deadline

unfoldable pub on_pto_expired : LossRecovery → LossRecovery
on_pto_expired r = record r { pto_count = (r.pto_count + 1) % 4294967296 }

-- An acknowledgement as `conn.rs` builds it, with its first range down to 0, leaves no packet up to its
-- number in flight, whether or not that packet arrived.
abbrev pub IsAbove : ℕ → SentPacket → Type 0
IsAbove largest p = largest < p.pn

take_block-IsAbove :
    (largest : ℕ) (sent : List SentPacket) → All (IsAbove largest) (take_block 0 largest sent).1
unfolding take_block
take_block-IsAbove largest [] = tt
take_block-IsAbove largest (p ∷ sent) = let rest = take_block-IsAbove largest sent in ground arith
