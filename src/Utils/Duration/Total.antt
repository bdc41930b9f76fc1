-- ===== src/Utils/Duration/Total.antt =====
-- The loop of `ParseDuration` ends within one round for each byte.
use xuandb.Prelude.{
  ℕ, zero, suc, ◌<◌, [], ◌∷◌, ◌++◌, ◌≢◌, refl, ap, arith, length, length-append, All, Option, none,
  some,
}
use xuandb.Prelude.Text.{Text}
use xuandb.Utils.Duration.{
  Segment, segment, refused, read_segment, accumulate, Outcome, err, out_of_fuel, duration_overflow,
  parse_loop, parse_duration,
}
use xuandb.Utils.Duration.Sound.{IsByte, ReadsPart, read_segment_sound, ReadsPart-IsByte}

length-nonempty : (s : Text) → s ≢ [] → 0 < length s
length-nonempty [] h = absurd (h refl)
length-nonempty (c ∷ s) h = omega arith

ReadsPart-length :
    (s rest : Text) (v unit : ℕ) → ReadsPart s (segment v unit rest) → length rest < length s
ReadsPart-length s rest v unit (ds, u, ne, _, _, e, _, _) =
    omega (
      arith,
      ap length e,
      length-append ds (u ++ rest),
      length-append u rest,
      length-nonempty ds ne,
    )

-- The rest of a round, on what it read and on its sum.
round_total :
    (fuel d c : ℕ) (s : Text)
    → ((v unit : ℕ) (rest : Text) (d' : ℕ)
        → ReadsPart (c ∷ s) (segment v unit rest)
        → parse_loop fuel rest d' ≢ out_of_fuel)
    → All IsByte (c ∷ s)
    → parse_loop (suc fuel) (c ∷ s) d ≢ out_of_fuel
unfolding parse_loop
round_total fuel d c s ih h = go (read_segment (c ∷ s)) (read_segment_sound (c ∷ s) h)
  where
    add :
        (v unit : ℕ) (rest : Text) (o : Option ℕ)
        → ReadsPart (c ∷ s) (segment v unit rest)
        → (elim o as (λ _. Outcome) [
          | none ↦ err duration_overflow
          | some d' ↦ parse_loop fuel rest d'
        ])
          ≢ out_of_fuel
    add v unit rest none p = cc
    add v unit rest (some d') p = ih v unit rest d' p

    go :
        (g : Segment)
        → ReadsPart (c ∷ s) g
        → (elim g as (λ _. Outcome) [
          | refused x ↦ err x
          | segment v unit rest ↦ elim (accumulate d v unit) [
            | none ↦ err duration_overflow
            | some d' ↦ parse_loop fuel rest d'
          ]
        ])
          ≢ out_of_fuel
    go (refused x) p = cc
    go (segment v unit rest) p = add v unit rest (accumulate d v unit) p

parse_loop_total :
    (fuel : ℕ) (s : Text) (d : ℕ)
    → All IsByte s
    → length s < fuel
    → parse_loop fuel s d ≢ out_of_fuel
parse_loop_total zero s d h l = absurd (omega arith)
parse_loop_total (suc fuel) [] d h l = unfold parse_loop in λ e. cc e
parse_loop_total (suc fuel) (c ∷ s) d h l =
    round_total fuel d c s
      (λ v unit rest d' p.
        parse_loop_total fuel rest d' (ReadsPart-IsByte (c ∷ s) rest v unit p h)
          (omega (arith, ReadsPart-length (c ∷ s) rest v unit p)))
      h

-- Every byte string gets an answer: the rounds that the loop is given are enough.
pub parse_duration_total : (s : Text) → All IsByte s → parse_duration s ≢ out_of_fuel
unfolding parse_duration
parse_duration_total s h = parse_loop_total (suc (length s)) s 0 h (omega arith)
