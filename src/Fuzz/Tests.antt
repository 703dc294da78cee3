-- ===== src/Fuzz/Tests.antt =====
-- The fuzz targets on one datagram.
use kvasilloni.Prelude.{◌≡◌, length, arith}
use kvasilloni.Prelude.Exec.{done}
use kvasilloni.Transport.StreamRead.{read_stream}
use kvasilloni.Wire.Tests.{packet}
use kvasilloni.Fuzz.{fuzz_parse_udp, fuzz_decode_stream}
use kvasilloni.Fuzz.Total.{fuzz_targets-done}

fuzz_targets-done_example :
    (fuzz_parse_udp packet ≡ done tt)
    × (fuzz_decode_stream packet ≡ done (read_stream (length packet) packet))
fuzz_targets-done_example = fuzz_targets-done packet (omega arith)
