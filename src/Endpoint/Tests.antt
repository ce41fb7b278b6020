-- ===== src/Endpoint/Tests.antt =====
-- Runs of lib/mb-endpoint/src/lib.rs.
use meshbus_rs.Endpoint.{decimal}
use meshbus_rs.Prelude.{◌≡◌, arith, refl, text, inl, ok}
use meshbus_rs.Endpoint.{Endpoint, new_endpoint, parse, display}
use meshbus_rs.Endpoint.RoundTrip.{parse-display}

abbrev loopback : Endpoint
loopback = record { host = text "::1"; port = 8080 }

display-loopback : display loopback ≡ text "[::1]:8080"
unfolding display decimal
display-loopback = refl

parse-display_example : parse (display loopback) ≡ ok loopback
unfolding new_endpoint
parse-display_example = parse-display (text "::1") 8080 refl (omega arith) (inl (refl, refl))
