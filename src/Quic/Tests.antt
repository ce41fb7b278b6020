-- ===== src/Quic/Tests.antt =====
-- Runs of lib/mb-quic.
use meshbus_rs.Quic.Frames.{Frame, encode_frame, decode_frame}
use meshbus_rs.Quic.FrameRoundTrip.{decode_frame-encode_frame}
use meshbus_rs.Quic.Send.{take_frame, has_pending, write}
use meshbus_rs.Quic.Recovery.{default_congestion}
use meshbus_rs.Quic.Congested.{
  CongestionOp, acked, acked_all, congestion_run, IsWindowOf, congestion_run-IsWindowOf,
}
use meshbus_rs.Prelude.{
  ℕ, ◌+◌, ◌≡◌, ◌≤◌, some, refl, arith, true, false, List, [], ◌∷◌, ◌++◌, length, take, ok, head,
  later,
}
use meshbus_rs.Quic.FlowControl.{
  FlowController, FlowOp, flow_run, granted_all, consume, available, flow_step, flow_run_lem,
}
use meshbus_rs.Quic.Recv.{new_recv, ingest}
use meshbus_rs.Quic.InOrder.{RecvOp, run_recv, ingest-ingest_same}
use meshbus_rs.Quic.Send.{SendOp, run_send, written}
use meshbus_rs.Quic.EndToEnd.{run_recv-run_send}

abbrev congestion_ops : List CongestionOp
congestion_ops =
    CongestionOp.sent_op 1200 ∷ CongestionOp.acked_op 1200 ∷ CongestionOp.loss_op 1200 7 ∷ []

congestion_run-IsWindowOf_example :
    IsWindowOf (congestion_run default_congestion congestion_ops) (acked_all congestion_ops + 0)
unfolding acked acked_all
congestion_run-IsWindowOf_example =
    congestion_run-IsWindowOf default_congestion 0 congestion_ops (omega arith, omega arith)
      (omega arith)

abbrev hundred : FlowController
hundred = record { limit = 100; used = 0 }

abbrev flow_ops : List FlowOp
flow_ops = FlowOp.consume_op 60 ∷ FlowOp.maybe_extend_op 100 ∷ FlowOp.consume_op 200 ∷ []

flow_run_lem_example :
    ((flow_run hundred flow_ops).used ≡ 0 + granted_all hundred flow_ops)
    × ((flow_run hundred flow_ops).used ≤ (flow_run hundred flow_ops).limit)
    × (100 ≤ (flow_run hundred flow_ops).limit)
unfolding flow_step consume available
flow_run_lem_example =
    flow_run_lem hundred flow_ops (omega arith, omega arith) (omega arith) (omega arith)

ingest-ingest_same_example :
    ingest (ingest new_recv 0 (1 ∷ 2 ∷ []) false) 0 (1 ∷ 2 ∷ 3 ∷ []) true
    ≡ record (ingest new_recv 0 (1 ∷ 2 ∷ []) false) { final_size = some 3 }
ingest-ingest_same_example =
    ingest-ingest_same new_recv 0 (1 ∷ 2 ∷ []) (1 ∷ 2 ∷ 3 ∷ []) false true (omega arith)
      (omega arith)

abbrev sends : List SendOp
sends = SendOp.write_op (5 ∷ 6 ∷ 7 ∷ []) true ∷ SendOp.take_op 2 ∷ SendOp.take_op 9 ∷ []

abbrev receives : List RecvOp
receives =
    RecvOp.ingest_op 2 (7 ∷ []) true
    ∷ RecvOp.read_op
    ∷ RecvOp.ingest_op 0 (5 ∷ 6 ∷ []) false
    ∷ RecvOp.read_op
    ∷ []

run_recv-run_send_example :
    (n : ℕ) × (n ≤ length (written sends))
    × ((run_recv new_recv receives).0 ≡ take n (written sends))
unfolding run_send take_frame has_pending write
run_recv-run_send_example = run_recv-run_send sends receives (later (head refl), (head refl, tt))

abbrev stream_frame : Frame
stream_frame = Frame.stream 4 1000 true (7 ∷ 8 ∷ [])

decode_frame-encode_frame_example :
    decode_frame (encode_frame stream_frame ++ (1 ∷ [])) ≡ ok (stream_frame, 1 ∷ [])
decode_frame-encode_frame_example =
    decode_frame-encode_frame stream_frame (1 ∷ []) (omega arith, omega arith, omega arith)
