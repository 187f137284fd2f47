-- ===== src/Packet/Report.antt =====
-- The reports that the line format is for, how they are written, and what they mean for the
-- metrics. Nothing here is taken from the parser.
use statsd_c.Base.{
  ◌≡◌, true, ◌||◌, Option, none, some, List, [], ◌∷◌, ◌++◌, Bytes, All, ◌==◌, codes,
}
use statsd_c.Strings.{is_digit}
use statsd_c.Platform.{Platform}
use statsd_c.Store.Update.{increment}
use statsd_c.Store.View.{Metrics, count, set_gauge, assigned, lowered, raised, time}
use statsd_c.Packet.Tokens.{Free}

pub data Report : Type 0 where
  -- a counter with its sample rate, if one is given
  counter : Bytes → Option Bytes → Report
  -- a gauge that is set, lowered or raised
  gauge gauge_down gauge_up : Bytes → Report
  timer : Bytes → Report

-- Digits and points, at least one of them.
abbrev pub IsNumber : Bytes → Type 0
IsNumber [] = ⊥
IsNumber (c ∷ n) = All (λ x. (is_digit x || x == b'.') ≡ true) (c ∷ n)

abbrev pub IsWritable : Report → Type 0
IsWritable (counter n none) = IsNumber n
IsWritable (counter n (some r)) = IsNumber n × Free b':' r × Free b'|' r
IsWritable (gauge n) = IsNumber n
IsWritable (gauge_down n) = IsNumber n
IsWritable (gauge_up n) = IsNumber n
IsWritable (timer n) = IsNumber n

abbrev pub render : Report → Bytes
render (counter n none) = n ++ codes "|c"
render (counter n (some r)) = n ++ (codes "|c|@" ++ r)
render (gauge n) = n ++ codes "|g"
render (gauge_down n) = b'-' ∷ (n ++ codes "|g")
render (gauge_up n) = b'+' ∷ (n ++ codes "|g")
render (timer n) = n ++ codes "|ms"

abbrev pub render_all : List Report → Bytes
render_all [] = []
render_all (r ∷ rs) = b':' ∷ (render r ++ render_all rs)

-- A packet: the name and the reports on it.
abbrev pub render_packet : Bytes → List Report → Bytes
render_packet key rs = key ++ render_all rs

module _ (P : Platform) where
  abbrev pub meaning : Bytes → Report → Metrics P → Metrics P
  meaning key (counter n none) = count P key (P.widen (increment P (P.strtod n) (P.of_nat 1)))
  meaning key (counter n (some r)) = count P key (P.widen (increment P (P.strtod n) (P.strtod r)))
  meaning key (gauge n) = set_gauge P key (assigned P (P.strtod n))
  meaning key (gauge_down n) = set_gauge P key (lowered P (P.strtod n))
  meaning key (gauge_up n) = set_gauge P key (raised P (P.strtod n))
  meaning key (timer n) = time P key (P.strtod n)

  -- One report after the other.
  abbrev pub meanings : Bytes → List Report → Metrics P → Metrics P
  meanings key [] m = m
  meanings key (r ∷ rs) m = meanings key rs (meaning key r m)
