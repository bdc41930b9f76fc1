-- ===== src/Utils/Duration/Sound.antt =====
-- What `ParseDuration` accepts and returns, and that its loop ends.
use native.Mathlib.Nat.{div-add-mod', mul-le-mul_right}
use mathlib.Core.Path.{subst}
use xuandb.Prelude.{
  ℕ, zero, suc, ◌+◌, ◌-◌, ◌*◌, ◌/◌, ◌≤◌, ◌<◌, [], ◌∷◌, ◌++◌, ◌≡◌, ◌≢◌, refl, sym, ap, ◌∙◌, arith,
  ◌⊎◌, inl, inr, some, none, Option, All-append_right, length, All, Bool, true, false, ltb, leb,
  Bool-cases, Option-cases,
}
use xuandb.Prelude.Text.{Text, codes, text_eq_iff}
use xuandb.Utils.Duration.{
  limit, scan_digits, Scanned, scanned, too_large, span_unit, unit_of, digit, Segment, segment,
  refused, segment_unit, segment_digits, read_segment, accumulate, duration_overflow, ok, err,
  parse_loop, parse_duration, micro_sign, greek_mu,
}

abbrev pub IsByte : ℕ → Type 0
IsByte c = c < 256

abbrev pub IsDigit : ℕ → Type 0
IsDigit c = (b'0' ≤ c) × (c ≤ b'9')

-- The number that decimal digits spell behind `v`, with no bound.
abbrev pub value : ℕ → Text → ℕ
value v [] = v
value v (c ∷ s) = value (v * 10 + (c - b'0')) s

-- The units and their nanoseconds.
abbrev pub UnitName : Text → ℕ → Type 0
UnitName u n =
    ((u ≡ codes "ns") × (n ≡ 1))
    ⊎ ((u ≡ codes "us") ⊎ ((u ≡ micro_sign ++ codes "s") ⊎ (u ≡ greek_mu ++ codes "s")))
      × (n ≡ 1000)
    ⊎ ((u ≡ codes "ms") × (n ≡ 1_000_000))
    ⊎ ((u ≡ codes "s") × (n ≡ 1_000_000_000))
    ⊎ ((u ≡ codes "m") × (n ≡ 60_000_000_000))
    ⊎ ((u ≡ codes "h") × (n ≡ 3_600_000_000_000))
    ⊎ ((u ≡ codes "d") × (n ≡ 86_400_000_000_000))
    ⊎ ((u ≡ codes "w") × (n ≡ 604_800_000_000_000))

unit_of-UnitName : (u : Text) (n : ℕ) → unit_of u ≡ some n → UnitName u n
unfolding unit_of
unit_of-UnitName u n h = ground (
  arith,
  text_eq_iff u (codes "ns"),
  text_eq_iff u (codes "us"),
  text_eq_iff u (micro_sign ++ codes "s"),
  text_eq_iff u (greek_mu ++ codes "s"),
  text_eq_iff u (codes "ms"),
  text_eq_iff u (codes "s"),
  text_eq_iff u (codes "m"),
  text_eq_iff u (codes "h"),
  text_eq_iff u (codes "d"),
  text_eq_iff u (codes "w"),
)

-- The digits that a run of the digits loop read.
abbrev Reads : Text → ℕ → Bool → Scanned → Type 0
Reads s v b too_large = Unit
Reads s v b (scanned w b' rest) =
    (ds : Text) × (s ≡ ds ++ rest)
    × All IsDigit ds
    × (w ≡ value v ds)
    × (w < limit)
    × ((b' ≡ b) ⊎ (ds ≢ []))

scan_digits_last :
    (c : ℕ) (s : Text) (v : ℕ) (b : Bool)
    → ltb 9 (digit c) ≡ true
    → scan_digits (c ∷ s) v b ≡ scanned v b (c ∷ s)
unfolding scan_digits
scan_digits_last c s v b h = rw h

scan_digits_step :
    (c : ℕ) (s : Text) (v : ℕ) (b : Bool)
    → c < 256
    → ltb 9 (digit c) ≡ false
    → (scan_digits (c ∷ s) v b ≡ too_large)
      ⊎ (scan_digits (c ∷ s) v b ≡ scan_digits s (v * 10 + (c - b'0')) true)
        × (v * 10 + (c - b'0') < limit)
        × IsDigit c
unfolding scan_digits
scan_digits_step c s v b l h = elim (Bool-cases (leb ((limit - digit c) / 10) v)) [
  | inl large ↦ inl (rw (h, large))
  | inr small ↦
      inr
        (rw (h, small) (ap (λ w. scan_digits s w true) (ground arith)), ground arith, ground arith)
]

Reads-step :
    (c : ℕ) (s : Text) (v : ℕ) (b : Bool) (r : Scanned)
    → IsDigit c
    → Reads s (v * 10 + (c - b'0')) true r
    → Reads (c ∷ s) v b r
Reads-step c s v b too_large d h = tt
Reads-step c s v b (scanned w b' rest) d (ds, e, all, n, l, m) =
    (c ∷ ds, ap (◌∷◌ c) e, (d, all), n, l, inr (λ p. cc))

scan_digits_sound :
    (s : Text) (v : ℕ) (b : Bool) → All IsByte s → v < limit → Reads s v b (scan_digits s v b)
scan_digits_sound [] v b h l = unfold scan_digits in ([], refl, tt, refl, l, inl refl)
scan_digits_sound (c ∷ s) v b (hc, h) l = elim (Bool-cases (ltb 9 (digit c))) [
  | inl stop ↦ rw (scan_digits_last c s v b stop) ([], refl, tt, refl, l, inl refl)
  | inr go ↦ elim (scan_digits_step c s v b hc go) [
    | inl e ↦ rw e tt
    | inr (e, k, d) ↦ rw e (
        Reads-step c s v b (scan_digits s (v * 10 + (c - b'0')) true) d
          (scan_digits_sound s (v * 10 + (c - b'0')) true h k))
  ]
]

span_unit-append : (s : Text) → (span_unit s).0 ++ (span_unit s).1 ≡ s
unfolding span_unit
span_unit-append [] = refl
span_unit-append (c ∷ s) = ground (arith, span_unit-append s)

-- A text is a sequence of numbers with units, and this is the sum that it stands for.
pub data Denotes : Text → ℕ → Type 0 where
  nothing : Denotes [] 0
  part :
      {s rest : Text} {n m : ℕ} (ds u : Text) (unit : ℕ)
      → ds ≢ []
      → All IsDigit ds
      → UnitName u unit
      → s ≡ ds ++ (u ++ rest)
      → n ≡ value 0 ds * unit + m
      → Denotes rest m
      → Denotes s n

-- What one round reads: digits and a unit in front of the rest.
abbrev pub ReadsPart : Text → Segment → Type 0
ReadsPart s (refused e) = Unit
ReadsPart s (segment v unit rest) =
    (ds : Text) × (u : Text) × (ds ≢ [])
    × All IsDigit ds
    × UnitName u unit
    × (s ≡ ds ++ (u ++ rest))
    × (v ≡ value 0 ds)
    × (v < limit)

ReadsPart-unit :
    (s ds rest : Text) (v : ℕ)
    → s ≡ ds ++ rest
    → ds ≢ []
    → All IsDigit ds
    → v ≡ value 0 ds
    → v < limit
    → ReadsPart s (segment_unit v (span_unit rest))
unfolding segment_unit
ReadsPart-unit s ds rest v e ne all n l =
    let u = (span_unit rest).0 in
    elim (Option-cases (unit_of u)) [
      | inl unknown ↦ rw (unknown, segment_unit, ReadsPart) tt
      | inr (unit, known) ↦
          rw (known, segment_unit, ReadsPart)
            (
              ds,
              u,
              ne,
              all,
              unit_of-UnitName u unit known,
              e ∙ ap (◌++◌ ds) (sym (span_unit-append rest)),
              n,
              l,
            )
    ]

segment_digits_sound : (s : Text) (r : Scanned) → Reads s 0 false r → ReadsPart s (segment_digits r)
unfolding segment_digits
segment_digits_sound s too_large h = tt
segment_digits_sound s (scanned v false rest) h = tt
segment_digits_sound s (scanned v true rest) (ds, e, all, n, l, m) =
    ReadsPart-unit s ds rest v e (ground arith) all n l

pub read_segment_sound : (s : Text) → All IsByte s → ReadsPart s (read_segment s)
unfolding read_segment
read_segment_sound s h = segment_digits_sound s _ (scan_digits_sound s 0 false h (omega arith))

mul-lt_of_lt-div : (v unit n : ℕ) → v < n / unit → v * unit < n
mul-lt_of_lt-div v zero n h = absurd (omega arith)
mul-lt_of_lt-div v (suc u) n h = omega (arith, div-add-mod' n (suc u), mul-le-mul_right (suc u) h)

accumulate_sound :
    (d v unit d' : ℕ)
    → v < limit
    → d < limit
    → 0 < unit
    → accumulate d v unit ≡ some d'
    → (d' ≡ d + v * unit) × (d' < limit)
unfolding accumulate
accumulate_sound d v unit d' h k p e = ground (arith, mul-lt_of_lt-div v unit limit)

UnitName-pos : (u : Text) (n : ℕ) → UnitName u n → 0 < n
UnitName-pos u n h = ground arith

-- A round that does not end the loop.
record Round (fuel : ℕ) (s : Text) (d n : ℕ) : Type 0 where
  v : ℕ
  unit : ℕ
  rest : Text
  d' : ℕ
  reads : read_segment s ≡ segment v unit rest
  adds : accumulate d v unit ≡ some d'
  later : parse_loop fuel rest d' ≡ ok n

Round-of_ok :
    (fuel c : ℕ) (s : Text) (d n : ℕ)
    → parse_loop (suc fuel) (c ∷ s) d ≡ ok n
    → Round fuel (c ∷ s) d n
unfolding parse_loop
Round-of_ok fuel c s d n e = go (read_segment (c ∷ s)) refl e
  where
    add :
        (v unit : ℕ) (rest : Text) (o : Option ℕ)
        → read_segment (c ∷ s) ≡ segment v unit rest
        → accumulate d v unit ≡ o
        → elim o [ none ↦ err duration_overflow | some d' ↦ parse_loop fuel rest d' ] ≡ ok n
        → Round fuel (c ∷ s) d n
    add v unit rest none r a e = cc
    add v unit rest (some d') r a e = record {
      v = v;
      unit = unit;
      rest = rest;
      d' = d';
      reads = r;
      adds = a;
      later = e;
    }

    go :
        (g : Segment)
        → read_segment (c ∷ s) ≡ g
        → elim g [
          | refused x ↦ err x
          | segment v unit rest ↦ elim (accumulate d v unit) [
            | none ↦ err duration_overflow
            | some d' ↦ parse_loop fuel rest d'
          ]
        ]
          ≡ ok n
        → Round fuel (c ∷ s) d n
    go (refused x) r e = cc
    go (segment v unit rest) r e = add v unit rest (accumulate d v unit) r refl e

-- What the loop returns from the sum `d`.
abbrev Sums : Text → ℕ → ℕ → Type 0
Sums s d n = (m : ℕ) × Denotes s m × (n ≡ d + m) × (n < limit)

Sums-part :
    (s rest : Text) (d v unit d' n : ℕ)
    → d < limit
    → ReadsPart s (segment v unit rest)
    → accumulate d v unit ≡ some d'
    → (d' < limit → Sums rest d' n)
    → Sums s d n
Sums-part s rest d v unit d' n l (ds, u, ne, all, name, e, val, k) a ih =
    let (sum, below) = accumulate_sound d v unit d' k l (UnitName-pos u unit name) a in
    let (m, den, eq, lt) = ih below in
    (
      value 0 ds * unit + m,
      part ds u unit ne all name e refl den,
      omega (arith, eq, sum, ap (λ (t : ℕ). t * unit) val),
      lt,
    )

pub ReadsPart-IsByte :
    (s rest : Text) (v unit : ℕ)
    → ReadsPart s (segment v unit rest)
    → All IsByte s
    → All IsByte rest
ReadsPart-IsByte s rest v unit (ds, u, _, _, _, e, _, _) h =
    All-append_right IsByte u rest (All-append_right IsByte ds (u ++ rest) (subst (All IsByte) e h))

parse_loop_sound :
    (fuel : ℕ) (s : Text) (d n : ℕ)
    → All IsByte s
    → d < limit
    → parse_loop fuel s d ≡ ok n
    → Sums s d n
parse_loop_sound zero s d n h l = unfold parse_loop in λ e. absurd (cc e)
parse_loop_sound (suc fuel) [] d n h l =
    unfold parse_loop in λ e. (0, nothing, ground arith, ground arith)
parse_loop_sound (suc fuel) (c ∷ s) d n h l = λ e.
    let r = Round-of_ok fuel c s d n e in
    let p : ReadsPart (c ∷ s) (segment r.v r.unit r.rest) =
      subst (ReadsPart (c ∷ s)) r.reads (read_segment_sound (c ∷ s) h) in
    Sums-part (c ∷ s) r.rest d r.v r.unit r.d' n l p r.adds (λ below.
      parse_loop_sound fuel r.rest r.d' n (ReadsPart-IsByte (c ∷ s) r.rest r.v r.unit p h) below
        r.later)

-- An accepted text is a sequence of numbers with known units, and the result is the exact sum
-- that it stands for, below 2 ^ 63: nothing wrapped around.
pub parse_duration_sound :
    (s : Text) (n : ℕ) → All IsByte s → parse_duration s ≡ ok n → Denotes s n × (n < limit)
unfolding parse_duration
parse_duration_sound s n h e =
    let (m, den, eq, lt) = parse_loop_sound (suc (length s)) s 0 n h (omega arith) e in
    let same : n ≡ m = omega arith in (rw same den, lt)
