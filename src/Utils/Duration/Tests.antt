-- ===== src/Utils/Duration/Tests.antt =====
-- Runs of pkg/utils/time.go, from its tests, and instances of the theorems.
use xuandb.Prelude.{◌<◌, ◌≡◌, ◌≢◌, refl, some, arith}
use xuandb.Prelude.Int.{pos}
use xuandb.Prelude.Text.{Text, codes}
use xuandb.Utils.Duration.{
  parse_duration, parse_loop, read_segment, segment_digits, segment_unit, accumulate, scan_digits,
  span_unit, unit_of, ok, err, out_of_fuel, duration_overflow, invalid_duration, format_duration,
  format_parts, write_part, write_rest, emit, limit,
}
use xuandb.Utils.Duration.RoundTrip.{
  parse_duration-format_duration, parse_duration-format_duration_overflow,
}
use xuandb.Utils.Duration.Sound.{Denotes, parse_duration_sound}
use xuandb.Utils.Duration.Total.{parse_duration_total}

parse_runs :
    (parse_duration (codes "1w2d3h4m5s6ms7us8ns") ≡ ok 788645006007008)
    × (parse_duration (codes "") ≡ ok 0)
    × (parse_duration (codes "1") ≡ err invalid_duration)
    × (parse_duration (codes "h") ≡ err invalid_duration)
    × (parse_duration (codes "15250w") ≡ err duration_overflow)
    × (parse_duration (codes "9223372036854775807ns") ≡ err duration_overflow)
unfolding parse_duration parse_loop read_segment segment_digits segment_unit accumulate scan_digits
    span_unit unit_of
parse_runs = (refl, refl, refl, refl, refl, refl)

format_run : format_duration (pos 788645006007008) ≡ some (codes "1w2d3h4m5s6ms7us8ns")
unfolding format_duration format_parts write_part write_rest emit
format_run = refl

parse_duration-format_duration_example :
    (s : Text) × (format_duration (pos 3600000000123) ≡ some s)
    × (parse_duration s ≡ ok 3600000000123)
parse_duration-format_duration_example = parse_duration-format_duration 3600000000123 (omega arith)

parse_duration-format_duration_overflow_example :
    (s : Text) × (format_duration (pos 9223372036854775807) ≡ some s)
    × (parse_duration s ≡ err duration_overflow)
parse_duration-format_duration_overflow_example =
    parse_duration-format_duration_overflow 9223372036854775807 (omega arith) (omega arith)

parse_duration_sound_example :
    Denotes (codes "1w2d3h4m5s6ms7us8ns") 788645006007008 × (788645006007008 < limit)
parse_duration_sound_example =
    parse_duration_sound (codes "1w2d3h4m5s6ms7us8ns") 788645006007008 (omega arith) parse_runs.0

parse_duration_total_example : parse_duration (codes "12h") ≢ out_of_fuel
parse_duration_total_example = parse_duration_total (codes "12h") (omega arith)
