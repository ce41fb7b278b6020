-- ===== src/Quic/Table.antt =====
-- The stream table of lib/mb-quic/src/stream.rs, and the queues of lib/mb-quic/src/datagram.rs.
use meshbus_rs.Prelude.{
  ℕ, ◌+◌, ◌≡◌, ◌≤◌, ltb, leb, max, refl, arith, Bool, true, false, not, ◌&&◌, if◌then◌else◌, nat_eq,
}
use meshbus_rs.Prelude.{
  Bytes, List, [], ◌∷◌, ◌++◌, length, length-append, filter, keys, insert, contains_key, Option,
  none, some,
}
use meshbus_rs.Quic.{Side}
use meshbus_rs.Quic.Streams.{nth}
use meshbus_rs.Quic.Recv.{RecvStream, new_recv, has_readable}
use meshbus_rs.Quic.Send.{SendStream, new_send, has_pending}

pub record Stream : Type 0 where
  pub send : SendStream
  pub recv : RecvStream

abbrev new_stream : Stream
new_stream = record { send = new_send; recv = new_recv }

pub record StreamMap : Type 0 where
  pub side : Side
  pub streams : List (ℕ × Stream)
  pub next_bidi : ℕ
  pub next_uni : ℕ
  pub peer_max_bidi : ℕ
  pub peer_max_uni : ℕ

unfoldable pub new_stream_map : Side → ℕ → ℕ → StreamMap
new_stream_map side bidi uni = record {
  side = side;
  streams = [];
  next_bidi = 0;
  next_uni = 0;
  peer_max_bidi = bidi;
  peer_max_uni = uni;
}

unfoldable pub set_peer_max : StreamMap → Bool → ℕ → StreamMap
set_peer_max m bidi value =
    if bidi
    then (if ltb m.peer_max_bidi value then record m { peer_max_bidi = value } else m)
    else (if ltb m.peer_max_uni value then record m { peer_max_uni = value } else m)

-- The next stream of a kind, if the peer admits one more.
unfoldable pub open_stream : StreamMap → Bool → Option ℕ × StreamMap
open_stream m bidi =
    let next = if bidi then m.next_bidi else m.next_uni in
    let limit = if bidi then m.peer_max_bidi else m.peer_max_uni in
    let id = nth m.side bidi next in
    let t : StreamMap =
      if bidi then record m { next_bidi = next + 1 } else record m { next_uni = next + 1 } in
    if leb limit next
    then (none, m)
    else (some id, record t { streams = insert id new_stream m.streams })

-- `entry`: the table with the stream in it.
unfoldable pub entry : StreamMap → ℕ → StreamMap
entry m id =
    if contains_key id m.streams then m else record m { streams = insert id new_stream m.streams }

unfoldable pub would_exceed_cap : StreamMap → ℕ → Bool
would_exceed_cap m id = not (contains_key id m.streams) && leb 256 (length m.streams)

insert_id : ℕ → List ℕ → List ℕ
insert_id k [] = k ∷ []
insert_id k (j ∷ js) = if leb k j then k ∷ j ∷ js else j ∷ insert_id k js

-- `sort_unstable` of numbers.
sorted : List ℕ → List ℕ
unfolding insert_id
sorted [] = []
sorted (k ∷ ks) = insert_id k (sorted ks)

unfoldable pub sendable : StreamMap → List ℕ
unfolding sorted
sendable m = sorted (keys (filter (λ e. has_pending e.1.send) m.streams))

unfoldable pub readable : StreamMap → List ℕ
unfolding sorted
readable m = sorted (keys (filter (λ e. has_readable e.1.recv) m.streams))

pub record DatagramQueue : Type 0 where
  pub outgoing : List Bytes
  pub incoming : List Bytes
  pub max_queued : ℕ
  pub max_recv : ℕ

unfoldable pub new_queue : ℕ → DatagramQueue
new_queue depth = record { outgoing = []; incoming = []; max_queued = depth; max_recv = depth }

unfoldable pub queue_outgoing : DatagramQueue → Bytes → Bool × DatagramQueue
queue_outgoing q bytes =
    if leb q.max_queued (length q.outgoing)
    then (false, q)
    else (true, record q { outgoing = q.outgoing ++ (bytes ∷ []) })

pop_fitting : ℕ → List Bytes → Option Bytes × List Bytes
pop_fitting max_len [] = (none, [])
pop_fitting max_len (front ∷ rest) =
    let later = pop_fitting max_len rest in
    if leb (length front) max_len then (some front, rest) else later

unfoldable pub take_outgoing : DatagramQueue → ℕ → Option Bytes × DatagramQueue
unfolding pop_fitting
take_outgoing q max_len =
    let (found, rest) = pop_fitting max_len q.outgoing in (found, record q { outgoing = rest })

pop_front : List Bytes → List Bytes
pop_front [] = []
pop_front (x ∷ xs) = xs

unfoldable pub ingest_datagram : DatagramQueue → Bytes → DatagramQueue
unfolding pop_front
ingest_datagram q bytes =
    let kept = if leb q.max_recv (length q.incoming) then pop_front q.incoming else q.incoming in
    record q { incoming = kept ++ (bytes ∷ []) }

unfoldable pub recv_datagram : DatagramQueue → Option Bytes × DatagramQueue
recv_datagram q = elim q.incoming [ [] ↦ (none, q) | x ∷ xs ↦ (some x, record q { incoming = xs }) ]

pub data QueueOp : Type 0 where
  queue_op ingest_op : Bytes → QueueOp
  take_op : ℕ → QueueOp
  recv_op : QueueOp

unfoldable pub queue_step : DatagramQueue → QueueOp → DatagramQueue
queue_step q (QueueOp.queue_op bytes) = (queue_outgoing q bytes).1
queue_step q (QueueOp.ingest_op bytes) = ingest_datagram q bytes
queue_step q (QueueOp.take_op max_len) = (take_outgoing q max_len).1
queue_step q QueueOp.recv_op = (recv_datagram q).1

unfoldable pub queue_run : DatagramQueue → List QueueOp → DatagramQueue
queue_run q [] = q
queue_run q (op ∷ ops) = queue_run (queue_step q op) ops

-- Both queues are within their bounds; an incoming datagram is taken also where the bound is 0.
abbrev pub IsBounded : ℕ → DatagramQueue → Type 0
IsBounded depth q =
    (q.max_queued ≡ depth)
    × (q.max_recv ≡ depth)
    × (length q.outgoing ≤ depth)
    × (length q.incoming ≤ max depth 1)

length-pop_fitting : (max_len : ℕ) (xs : List Bytes) → length (pop_fitting max_len xs).1 ≤ length xs
unfolding pop_fitting
length-pop_fitting max_len [] = omega arith
length-pop_fitting max_len (x ∷ xs) = ground (arith, length-pop_fitting max_len xs)

queue_step-IsBounded :
    (depth : ℕ) (q : DatagramQueue) (op : QueueOp)
    → IsBounded depth q
    → IsBounded depth (queue_step q op)
unfolding queue_step queue_outgoing ingest_datagram take_outgoing recv_datagram pop_front
queue_step-IsBounded depth q (QueueOp.queue_op bytes) h =
    ground (arith, h, length-append q.outgoing (bytes ∷ []))
queue_step-IsBounded depth q (QueueOp.take_op max_len) h =
    ground (arith, h, length-pop_fitting max_len q.outgoing)
queue_step-IsBounded depth q QueueOp.recv_op h = ground (arith, h)
queue_step-IsBounded depth q (QueueOp.ingest_op bytes) h = ground (
  arith,
  h,
  length-append q.incoming (bytes ∷ []),
  length-append (pop_front q.incoming) (bytes ∷ []),
)

from_queue :
    (depth : ℕ) (ops : List QueueOp) (q : DatagramQueue)
    → IsBounded depth q
    → IsBounded depth (queue_run q ops)
unfolding queue_run
from_queue depth [] q h = h
from_queue depth (op ∷ ops) q h =
    from_queue depth ops (queue_step q op) (queue_step-IsBounded depth q op h)

-- Whatever is queued, taken, received and read, at most `depth` datagrams wait to be sent, and at most
-- `depth`, or one where that is 0, to be read.
pub queue_run-IsBounded :
    (depth : ℕ) (ops : List QueueOp) → IsBounded depth (queue_run (new_queue depth) ops)
unfolding new_queue
queue_run-IsBounded depth ops =
    from_queue depth ops (new_queue depth) (refl, refl, omega arith, omega arith)
