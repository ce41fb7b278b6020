-- ===== src/MeshControl/Tests.antt =====
-- The path controller on a few packages.
use meshbus_rs.Prelude.{
  ℕ, text, true, not, List, [], ◌∷◌, ◌≡◌, refl, arith, keys, filter, IsMap, nat_eq,
}
use meshbus_rs.MeshProto.Types.{AckNack}
use meshbus_rs.MeshControl.{
  InflightPackage, MeshPathController, on_sent, on_ack, default_controller, default_rtt,
  on_pto_expired, missing, insert_sorted,
}
use meshbus_rs.MeshControl.Rtt.{on_samples, IsWithin, on_samples-IsWithin}
use meshbus_rs.MeshControl.Acks.{on_ack_settles}
use meshbus_rs.MeshControl.Account.{PathOp, run_path, IsAccounted, bytes_in_flight_exact, path_step}

abbrev sent_package : ℕ → InflightPackage
sent_package seq = record { seq = seq; sent_at_us = 100; size = 500; ack_eliciting = true }

abbrev report : AckNack
report = record {
  family_id = text "f";
  cumulative_seq = 2;
  received_bitmap = text "0";
  missing_ranges = record { start = 2; last = 2 } ∷ [];
}

abbrev in_flight : MeshPathController
in_flight = on_sent (on_sent default_controller (sent_package 2)) (sent_package 1)

two_entries : IsMap in_flight.inflight
unfolding on_sent insert_sorted
two_entries = (refl, (refl, tt))

on_ack_settles_example :
    ((on_ack in_flight report 0 900).0.inflight ≡ [])
    × ((on_ack in_flight report 0 900).1.acked_seqs
        ≡ filter (λ k. not (missing report.missing_ranges k)) (keys in_flight.inflight))
    × ((on_ack in_flight report 0 900).1.lost_seqs
        ≡ filter (missing report.missing_ranges) (keys in_flight.inflight))
on_ack_settles_example = on_ack_settles in_flight report 0 900 two_entries

abbrev path_ops : List PathOp
path_ops = PathOp.sent (sent_package 2) ∷ PathOp.pto_expired ∷ PathOp.sent (sent_package 1) ∷ []

bytes_in_flight_exact_example : IsAccounted (run_path default_controller path_ops)
unfolding path_step on_sent insert_sorted on_pto_expired
bytes_in_flight_exact_example = bytes_in_flight_exact path_ops (refl, (tt, (refl, tt)))

on_samples-IsWithin_example :
    IsWithin 80 1000 (on_samples default_rtt ((90, 0) ∷ (1000, 30) ∷ (80, 5) ∷ []))
on_samples-IsWithin_example =
    on_samples-IsWithin 80 1000 90 0 ((1000, 30) ∷ (80, 5) ∷ []) (omega arith)
      (omega arith, omega arith) ((omega arith, omega arith), ((omega arith, omega arith), tt))
