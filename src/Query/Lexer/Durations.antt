-- ===== src/Query/Lexer/Durations.antt =====
-- What `Lex` gives for a duration as `FormatDuration` writes it.
use native.Mathlib.Nat.{pow-suc}
use mathlib.Core.Path.{subst}
use xuandb.Prelude.{
  ℕ, zero, suc, ◌+◌, ◌*◌, ◌/◌, ◌%◌, ◌^◌, ◌<◌, ◌≤◌, ◌≡◌, refl, arith, true, false, ltb, List, [],
  ◌∷◌, ◌++◌, append_assoc, ◌∙◌, ap, sym, All, some, none, length, All-append, if◌then◌else◌, inl,
  inr, Bool-cases,
}
use xuandb.Prelude.Text.{Text}
use xuandb.Prelude.Int.{pos}
use xuandb.Utils.Duration.{emit, week, ok, parse_duration, format_duration}
use xuandb.Utils.Duration.Parts.{Part, IsSmall, render, render-ne-nil, total, suffix}
use xuandb.Utils.Duration.RoundTrip.{format_duration-parts}
use xuandb.Query.Run.{returned}
use xuandb.Query.Scanner.{Scanner, token_text}
use xuandb.Query.Scanner.Runes.{is_decimal, is_ident_rune, is_whitespace}
use xuandb.Query.Scanner.Number.{ScanResult}
use xuandb.Query.Scanner.Reading.{ahead, AllIn}
use xuandb.Query.Scanner.Ahead.{At}
use xuandb.Query.Scanner.Durations.Spans.{Span, IsSpan, spans, Stops}
use xuandb.Query.Scanner.Durations.Tokens.{scan-spans}
use xuandb.Query.Lexer.Token.{val_duration}
use xuandb.Query.Lexer.Lex.{
  Tables, lex_result, more_reports, parse_literal, literal, duration_value, is_comment,
}
use xuandb.Query.Lexer.Reading.{Lexes, lex_once}

emit-more :
    (f n : ℕ) (out : Text)
    → ltb n 10 ≡ false
    → emit (suc f) n out ≡ emit f (n / 10) ((b'0' + n % 10) ∷ out)
unfolding emit
emit-more f n out large =
    ap (λ b. if b then (b'0' + n) ∷ out else emit f (n / 10) ((b'0' + n % 10) ∷ out)) large

emit-one : (f n : ℕ) (out : Text) → ltb n 10 ≡ true → emit (suc f) n out ≡ (b'0' + n) ∷ out
unfolding emit
emit-one f n out small =
    ap (λ b. if b then (b'0' + n) ∷ out else emit f (n / 10) ((b'0' + n % 10) ∷ out)) small

digit-AllIn : (n : ℕ) → n < 10 → AllIn is_decimal ((b'0' + n) ∷ [])
unfolding is_decimal
digit-AllIn n h = (((omega arith, omega arith), ground arith), tt)

-- `n` is written as a digit that is not 0, and further digits.
abbrev Digited : ℕ → ℕ → Text → Type 0
Digited f n out =
    (c : ℕ) × (w : Text) × (emit (suc f) n out ≡ c ∷ w ++ out)
    × (b'1' ≤ c)
    × (c ≤ b'9')
    × AllIn is_decimal w

one-Digited : (f n : ℕ) (out : Text) → 0 < n → ltb n 10 ≡ true → Digited f n out
one-Digited f n out h small =
    (b'0' + n, [], emit-one f n out small, omega arith, ground (arith, small), tt)

-- A positive number is written without a leading zero.
emit-Digited : (f n : ℕ) (out : Text) → 0 < n → n < 10 ^ suc f → Digited f n out
emit-Digited zero n out h k = one-Digited zero n out h (ground arith)
emit-Digited (suc f) n out h k = elim (Bool-cases (ltb n 10)) [
  | inl small ↦ one-Digited (suc f) n out h small
  | inr large ↦
      let last = b'0' + n % 10 in
      let (c, w, e, low, high, a) =
        emit-Digited f (n / 10) (last ∷ out) (ground (arith, large))
          (omega (arith, pow-suc 10 (suc f))) in
      (
        c,
        w ++ last ∷ [],
        emit-more (suc f) n out large ∙ e ∙ ap (λ t. c ∷ t) (sym (append_assoc w (last ∷ []) out)),
        low,
        high,
        All-append _ w (last ∷ []) a (digit-AllIn (n % 10) (omega arith)),
      )
]

-- Parts that are written are spans.
abbrev IsWhole : Part → Type 0
IsWhole p = (0 < p.count) × IsSmall p

render-spans :
    (ps : List Part) → All IsWhole ps → (gs : List Span) × (render ps ≡ spans gs) × All IsSpan gs
render-spans [] a = ([], refl, tt)
render-spans (p ∷ ps) ((h, small), a) =
    let (gs, e, b) = render-spans ps a in
    let (c, w, digits, low, high, d) =
      emit-Digited 19 p.count (suffix p.scale ++ render ps) h (omega (arith, small.0)) in
    (
      record { head = c; digits = w; scale = p.scale } ∷ gs,
      digits ∙ ap (λ t. c ∷ w ++ (suffix p.scale ++ t)) e,
      ((low, high, d), b),
    )

All-both {ℓ κ} :
    {A : Type ℓ} (P Q : A → Type κ) (xs : List A) → All P xs → All Q xs → All (λ x. P x × Q x) xs
All-both P Q [] a b = tt
All-both P Q (x ∷ xs) (p, a) (q, b) = ((p, q), All-both P Q xs a b)

-- A duration as it is written down.
unfoldable pub duration_text : ℕ → Text
duration_text d = elim (format_duration (pos d)) [ some t ↦ t | none ↦ [] ]

-- The spans of a written duration, of which there is one at least.
abbrev IsSpanned : ℕ → Type 0
IsSpanned d =
    (g : Span) × (gs : List Span) × (duration_text d ≡ spans (g ∷ gs))
    × (parse_duration (spans (g ∷ gs)) ≡ ok d)
    × All IsSpan (g ∷ gs)

some_spans :
    (d : ℕ) (ps : List Part) (gs : List Span)
    → 0 < d
    → total ps ≡ d
    → duration_text d ≡ render ps
    → parse_duration (render ps) ≡ ok d
    → render ps ≡ spans gs
    → All IsSpan gs
    → IsSpanned d
some_spans d ps [] h whole text parsed e a = absurd (nothing ps e whole)
  where
    nothing : (ps : List Part) → render ps ≡ [] → total ps ≡ d → ⊥
    nothing [] e whole = omega (arith, whole, h)
    nothing (p ∷ ps) e whole = render-ne-nil p ps e
some_spans d ps (g ∷ gs) h whole text parsed e a =
    (g, gs, text ∙ e, ap parse_duration (sym e) ∙ parsed, a)

duration-IsSpanned : (d : ℕ) → 0 < d → d < 15250 * week → IsSpanned d
unfolding duration_text
duration-IsSpanned d h k =
    let (ps, text, parsed, small, positive, whole) = format_duration-parts d h k in
    let (gs, e, a) = render-spans ps (All-both (λ p. 0 < p.count) IsSmall ps positive small) in
    some_spans d ps gs h whole (ap (λ o. elim o [ some t ↦ t | none ↦ [] ]) text) parsed e a

-- The lexer's value of a duration that was scanned without a report.
lex_result-duration :
    (tb : Tables) (s t : Scanner) (d : ℕ) (piece : Text)
    → t.reports ≡ s.reports
    → token_text t ≡ piece
    → parse_duration piece ≡ ok d
    → lex_result tb ScanResult.duration (more_reports s t) t ≡ returned (val_duration d, t)
unfolding lex_result parse_literal literal duration_value
lex_result-duration tb s t d piece same text parsed =
    let silent : more_reports s t ≡ false = ground (arith, ap length same) in
    rw (silent, ap parse_duration text ∙ parsed) refl

-- Behind a space, and before what continues no word, a duration from a nanosecond up to 15250 weeks
-- is a token with its value.
pub lex-duration :
    (tb : Tables) (s : Scanner) (d : ℕ) (tail : Text)
    → At s (b' ' ∷ (duration_text d ++ tail))
    → 0 < d
    → d < 15250 * week
    → Stops tail
    → is_ident_rune tb.classes (ahead tail) ≡ false
    → Lexes tb s (val_duration d) tail
unfolding is_comment is_whitespace
lex-duration tb s d tail at h k stops stop =
    let (g, gs, text, parsed, (b, a)) = duration-IsSpanned d h k in
    let there : At s (b' ' ∷ (spans (g ∷ gs) ++ tail)) =
      subst (λ w. At s (b' ' ∷ (w ++ tail))) text at in
    let (t, e, after, piece, same) =
      scan-spans tb.classes s (b' ' ∷ []) g gs tail there (((omega arith, omega arith), refl), tt) b
        a stops stop in
    (
      t,
      lex_once tb s ScanResult.duration t e refl
          ∙ lex_result-duration tb s t d (spans (g ∷ gs)) same piece parsed,
      after,
    )
