-- ===== src/Strings/LongDouble.antt =====
-- `ldtoa` of src/strings.c, which nothing calls.
use statsd_c.Base.{Bytes}
use statsd_c.Exec.{Result}
use statsd_c.Strings.{print_into}
use statsd_c.Platform.{Platform}

-- The buffer has 20 bytes.
unfoldable pub ldtoa : (P : Platform) → P.LongDouble → Result Bytes
ldtoa P ld = print_into 20 (P.print_lf ld)
