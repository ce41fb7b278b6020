-- ===== src/Quic.antt =====
-- lib/mb-quic: the side of a connection, and 64-bit numbers.
use meshbus_rs.Prelude.{ℕ, ◌%◌}
pub mod FlowControl
pub mod Streams
pub mod Recv
pub mod InOrder
pub mod Varint
pub mod Frames
pub mod FrameRoundTrip
pub mod Send
pub mod Table
pub mod EndToEnd
pub mod Recovery
pub mod Congested
pub mod Loss
pub mod Tests

pub data Side : Type 0 where
  client server : Side

-- A sum or a product of `u64` numbers, as a release build computes it.
abbrev pub wrap64 : ℕ → ℕ
wrap64 n = n % 18446744073709551616
