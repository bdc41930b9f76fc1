-- ===== src/Utils/Duration.antt =====
-- pkg/utils/time.go: `ParseDuration` and `FormatDuration` over byte strings. A `uint64` is a ℕ
-- that wraps at 2 ^ 64, and a `time.Duration` of the result is its number of nanoseconds.
pub mod Digits
pub mod Parts
pub mod RoundTrip
pub mod Sound
pub mod Total
mod Tests
use xuandb.Prelude.{
  ℕ, zero, suc, ◌+◌, ◌-◌, ◌*◌, ◌/◌, ◌%◌, ◌^◌, Bool, true, false, ◌||◌, List, [], ◌∷◌, ◌++◌, Option,
  none, some, ltb, leb, ◌==◌, if◌then◌else◌, length,
}
use xuandb.Prelude.Int.{ℤ, pos, negsuc}
use xuandb.Prelude.Text.{Text, codes, text_eq}

pub data DurationError : Type 0 where
  invalid_duration duration_overflow : DurationError

-- `out_of_fuel` is no result of the program: the loop never meets it.
pub data Outcome : Type 0 where
  ok : ℕ → Outcome
  err : DurationError → Outcome
  out_of_fuel : Outcome

abbrev pub u64 : ℕ
u64 = 2 ^ 64

abbrev pub limit : ℕ
limit = 2 ^ 63

-- The `time` constants, in nanoseconds.
abbrev pub microsecond : ℕ
microsecond = 1000

abbrev pub millisecond : ℕ
millisecond = 1000 * microsecond

abbrev pub second : ℕ
second = 1000 * millisecond

abbrev pub minute : ℕ
minute = 60 * second

abbrev pub hour : ℕ
hour = 60 * minute

abbrev pub day : ℕ
day = 24 * hour

abbrev pub week : ℕ
week = 7 * day

-- `uint64(s[i]) - '0'`: a byte below '0' wraps around to a large number.
abbrev pub digit : ℕ → ℕ
digit c = (c + u64 - b'0') % u64

-- The digits loop: the value, whether a digit was read, and the unread bytes.
pub data Scanned : Type 0 where
  scanned : ℕ → Bool → Text → Scanned
  too_large : Scanned

pub scan_digits : Text → ℕ → Bool → Scanned
scan_digits [] v moved = scanned v moved []
scan_digits (c ∷ s) v moved =
    if ltb 9 (digit c)
    then scanned v moved (c ∷ s)
    else if leb ((limit - digit c) / 10) v
    then too_large
    else scan_digits s ((v * 10 + digit c) % u64) true

-- The unit loop: the bytes up to the next digit, and the rest.
pub span_unit : Text → Text × Text
span_unit [] = ([], [])
span_unit (c ∷ s) =
    let (u, rest) = span_unit s in if ltb c b'0' || ltb b'9' c then (c ∷ u, rest) else ([], c ∷ s)

-- The UTF-8 bytes of the two spellings of a micro sign.
abbrev pub micro_sign : Text
micro_sign = 0xc2 ∷ 0xb5 ∷ []

abbrev pub greek_mu : Text
greek_mu = 0xce ∷ 0xbc ∷ []

-- The switch on the unit.
pub unit_of : Text → Option ℕ
unfolding text_eq
unit_of u =
    if text_eq u (codes "ns")
    then some 1
    else if text_eq u (codes "us")
        || text_eq u (micro_sign ++ codes "s")
        || text_eq u (greek_mu ++ codes "s")
    then some microsecond
    else if text_eq u (codes "ms")
    then some millisecond
    else if text_eq u (codes "s")
    then some second
    else if text_eq u (codes "m")
    then some minute
    else if text_eq u (codes "h")
    then some hour
    else if text_eq u (codes "d")
    then some day
    else if text_eq u (codes "w")
    then some week
    else none

-- One round's number, unit and rest, or the error that ends the loop.
pub data Segment : Type 0 where
  segment : ℕ → ℕ → Text → Segment
  refused : DurationError → Segment

pub segment_unit : ℕ → Text × Text → Segment
segment_unit v (u, rest) = elim (unit_of u) [
  | none ↦ refused invalid_duration
  | some unit ↦ segment v unit rest
]

pub segment_digits : Scanned → Segment
segment_digits too_large = refused duration_overflow
segment_digits (scanned v false rest) = refused invalid_duration
segment_digits (scanned v true rest) = segment_unit v (span_unit rest)

pub read_segment : Text → Segment
read_segment s = segment_digits (scan_digits s 0 false)

-- `d += v * unit` behind its two overflow tests.
pub accumulate : ℕ → ℕ → ℕ → Option ℕ
accumulate d v unit =
    let w = v * unit % u64 in
    if leb (limit / unit) v
    then none
    else if leb ((limit + u64 - w) % u64) d
    then none
    else some ((d + w) % u64)

pub parse_loop : ℕ → Text → ℕ → Outcome
parse_loop zero s d = out_of_fuel
parse_loop (suc fuel) [] d = ok d
parse_loop (suc fuel) (c ∷ s) d = elim (read_segment (c ∷ s)) [
  | refused e ↦ err e
  | segment v unit rest ↦ elim (accumulate d v unit) [
    | none ↦ err duration_overflow
    | some d' ↦ parse_loop fuel rest d'
  ]
]

-- A round reads at least one byte, so one round more than there are bytes is enough.
pub parse_duration : Text → Outcome
parse_duration s = parse_loop (suc (length s)) s 0

-- `MustParseDuration`: `none` is the panic.
pub must_parse_duration : Text → Option ℕ
must_parse_duration s = elim (parse_duration s) [ ok d ↦ some d | _ ↦ none ]

-- `strconv.FormatUint(n, 10)` in front of `out`; twenty rounds write any uint64.
unfoldable pub emit : ℕ → ℕ → Text → Text
emit zero n out = out
emit (suc fuel) n out =
    let more = emit fuel (n / 10) ((b'0' + n % 10) ∷ out) in
    if ltb n 10 then (b'0' + n) ∷ out else more

abbrev pub decimal : ℕ → Text
decimal n = emit 20 n []

-- `if v := d / unit; v > 0 { write v; write suffix; d -= v * unit }` on the buffer and `d`.
pub write_part : ℕ → Text → Text × ℕ → Text × ℕ
write_part unit suffix (sb, d) =
    let v = d / unit in if ltb 0 v then (sb ++ (decimal v ++ suffix), d - v * unit) else (sb, d)

pub format_parts : ℕ → Text × ℕ
format_parts d = write_part microsecond (codes "us") (
    write_part millisecond (codes "ms") (
      write_part second (codes "s") (
        write_part minute (codes "m") (
          write_part hour (codes "h")
            (write_part day (codes "d") (write_part week (codes "w") ([], d)))))))

pub write_rest : Text × ℕ → Text
write_rest (sb, d) = if ltb 0 d then sb ++ (decimal d ++ codes "ns") else sb

-- `none` is the panic on a negative duration.
pub format_duration : ℤ → Option Text
format_duration (negsuc n) = none
format_duration (pos d) = some (if d == 0 then codes "0s" else write_rest (format_parts d))
