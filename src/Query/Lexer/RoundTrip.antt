-- ===== src/Query/Lexer/RoundTrip.antt =====
-- A text that the result set quotes is read back by the lexer.
use xuandb.Prelude.{
  ℕ, zero, suc, ◌+◌, ◌-◌, ◌/◌, ◌%◌, ◌<◌, ◌≤◌, ◌≡◌, refl, ◌∙◌, ap, arith, Bool, true, false, ◌||◌,
  ◌==◌, [], ◌∷◌, ◌++◌, append_assoc, All, length, length-append, Bool-cases, inl, inr,
  if◌then◌else◌, ltb,
}
use xuandb.Prelude.Text.{Text}
use xuandb.Query.Value.{quote, quote_runes, quote_rune, is_print, short_escape, hex}
use xuandb.Query.Lexer.{
  lower, digit_val, decode_loop, decode_digits, unescape_rune, write_rune, unescaped, prepend,
  read_rune, is_last, unescape_loop, unescape,
}

abbrev RuneRead : (ℕ → Bool) → ℕ → Type 0
RuneRead table c =
    (f : ℕ) (rest : Text)
    → unescape_loop (suc f) b'"' (quote_rune table c ++ rest)
      ≡ prepend (c ∷ []) (unescape_loop f b'"' rest)

lower_letter : (d : ℕ) → d < 6 → lower (b'a' + d) ≡ b'a' + d
unfolding lower
lower_letter zero h = refl
lower_letter (suc zero) h = refl
lower_letter (suc (suc zero)) h = refl
lower_letter (suc (suc (suc zero))) h = refl
lower_letter (suc (suc (suc (suc zero)))) h = refl
lower_letter (suc (suc (suc (suc (suc zero))))) h = refl
lower_letter (suc (suc (suc (suc (suc (suc d)))))) h = omega arith

abbrev hex_digit : ℕ → ℕ
hex_digit d = if ltb d 10 then b'0' + d else b'a' + d - 10

digit_val-hex_digit : (d : ℕ) → d < 16 → digit_val (hex_digit d) ≡ d
unfolding digit_val
digit_val-hex_digit d h = elim (Bool-cases (ltb d 10)) [
  | inl decimal ↦ ground arith
  | inr letter ↦
      let e : b'a' + d - 10 ≡ b'a' + (d - 10) = ground arith in
      rw letter (rw e (rw (lower_letter (d - 10) (ground arith)) (ground arith)))
]

decode_digits-hex :
    (c : ℕ) (rest : Text) → c < 256 → decode_digits (hex 2 c [] ++ rest) 16 2 ≡ (c, rest)
unfolding hex decode_digits decode_loop
decode_digits-hex c rest h =
    rw (digit_val-hex_digit (c / 16 % 16) (omega arith), digit_val-hex_digit (c % 16) (omega arith))
      (ground arith)

-- What a plain character, or a backslash and its escape, adds to the text.
read_plain :
    (c f : ℕ) (rest : Text)
    → (c == b'"') ≡ false
    → (c == b'\\') ≡ false
    → unescape_loop (suc f) b'"' (c ∷ rest) ≡ prepend (c ∷ []) (unescape_loop f b'"' rest)
unfolding unescape_loop read_rune
read_plain c f rest q b = ground arith

read_escape :
    (c f : ℕ) (s rest : Text)
    → c < 128
    → unescape_rune b'"' s ≡ (c, rest)
    → unescape_loop (suc f) b'"' (b'\\' ∷ s) ≡ prepend (c ∷ []) (unescape_loop f b'"' rest)
unfolding unescape_loop read_rune write_rune
read_escape c f s rest h e = rw e (ground arith)

read_hex :
    (c f : ℕ) (rest : Text)
    → c < 128
    → unescape_loop (suc f) b'"' (b'\\' ∷ b'x' ∷ hex 2 c [] ++ rest)
      ≡ prepend (c ∷ []) (unescape_loop f b'"' rest)
unfolding unescape_rune
read_hex c f rest h =
    read_escape c f (b'x' ∷ hex 2 c [] ++ rest) rest h (decode_digits-hex c rest (omega arith))

read_short :
    (c f : ℕ) (rest : Text)
    → ltb 0 (short_escape c) ≡ true
    → unescape_loop (suc f) b'"' (b'\\' ∷ short_escape c ∷ rest)
      ≡ prepend (c ∷ []) (unescape_loop f b'"' rest)
unfolding unescape_rune short_escape
read_short c f rest h = read_escape c f (short_escape c ∷ rest) rest (ground arith) (ground arith)

rune_read : (table : ℕ → Bool) (c : ℕ) → c < 128 → RuneRead table c
unfolding quote_rune is_print
rune_read table c h f rest = elim (Bool-cases (c == b'"' || c == b'\\')) [
  | inl special ↦
      rw special (read_escape c f (c ∷ rest) rest h (unfold unescape_rune in ground arith))
  | inr other ↦ elim (Bool-cases (is_print table c)) [
    | inl prints ↦ rw (other, prints) (read_plain c f rest (ground arith) (ground arith))
    | inr control ↦ elim (Bool-cases (ltb 0 (short_escape c))) [
      | inl short ↦ rw (other, control, short) (read_short c f rest short)
      | inr long ↦
          let low : (ltb c 32 || c == 127) ≡ true = ground arith in
          rw (other, control, long, low) (read_hex c f rest h)
    ]
  ]
]

loop-quote_runes :
    (table : ℕ → Bool) (f : ℕ) (s : Text)
    → length s < f
    → All (λ c. c < 128) s
    → unescape_loop f b'"' (quote_runes table s ++ b'"' ∷ []) ≡ unescaped s
unfolding quote_runes unescape_loop is_last prepend
loop-quote_runes table zero s h a = absurd (omega arith)
loop-quote_runes table (suc f) [] h a = ground arith
loop-quote_runes table (suc f) (c ∷ s) h (low, a) =
    ap (unescape_loop (suc f) b'"')
      (append_assoc (quote_rune table c) (quote_runes table s) (b'"' ∷ []))
    ∙ rune_read table c low f (quote_runes table s ++ b'"' ∷ [])
    ∙ ap (prepend (c ∷ [])) (loop-quote_runes table f s (omega arith) a)

length-quote_rune : (table : ℕ → Bool) (c : ℕ) → 1 ≤ length (quote_rune table c)
unfolding quote_rune
length-quote_rune table c = ground arith

length-quote_runes : (table : ℕ → Bool) (s : Text) → length s ≤ length (quote_runes table s)
unfolding quote_runes
length-quote_runes table [] = omega arith
length-quote_runes table (c ∷ s) = omega (
  arith,
  length-append (quote_rune table c) (quote_runes table s),
  length-quote_rune table c,
  length-quote_runes table s,
)

-- An ASCII text that the result set quotes is read back from it by the lexer.
pub unescape-quote :
    (table : ℕ → Bool) (s : Text)
    → All (λ c. c < 128) s
    → unescape (quote table s) b'"' ≡ unescaped s
unfolding unescape quote
unescape-quote table s h =
    loop-quote_runes table _ s
      (omega (arith, length-append (quote_runes table s) (b'"' ∷ []), length-quote_runes table s)) h
