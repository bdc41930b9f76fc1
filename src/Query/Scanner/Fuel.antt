-- ===== src/Query/Scanner/Fuel.antt =====
-- What the loops of pkg/query/parser/scanner.go read, and how many rounds that leaves them.
use xuandb.Prelude.{
  ℕ, zero, suc, ◌+◌, ◌≡◌, ◌<◌, ◌≤◌, refl, arith, Bool, true, false, ◌==◌, ◌||◌, ◌&&◌, ltb, leb,
  if◌then◌else◌, Bool-cases, ◌⊎◌, inl, inr, [], ◌∷◌, ◌++◌, length, length-append, ap, sym, ◌∙◌,
}
pub mod Durations
pub mod Runs
use mathlib.Core.Path.{subst}
use xuandb.Prelude.Text.{Text}
use xuandb.Query.Scanner.{
  Scanner, next, next_of, advance, special, at_end, error, new_line, eof, is_negative,
}
use xuandb.Query.Scanner.Runes.{while_loop, while_class}
use xuandb.Query.Scanner.Quoted.{
  string_loop, scan_escape, escape, block_loop, is_short_escape, scan_string, scan_block_comment,
}
use xuandb.Query.Scanner.Moves.Tokens.{escape-Keeps}
use xuandb.Query.Scanner.Moves.{Keeps, next-Keeps, special-Keeps}
use xuandb.Query.Utf8.{Decoded, decode_rune, decode_two, decode_three, decode_four}
use xuandb.Query.Utf8.RoundTrip.{decode_rune-split}

-- A character was read, or the end was met.
abbrev pub Shrinks : Scanner → ℕ × Scanner → Type 0
Shrinks s (ch, t) = (ch ≡ eof) ⊎ (length t.rest < length s.rest)

-- Every rune has a byte.
decode_two-bytes : (b : ℕ) (s : Text) → 0 < length (decode_two b s).bytes
unfolding decode_two
decode_two-bytes b [] = omega arith
decode_two-bytes b (x ∷ s) = ground arith

decode_three-bytes : (b : ℕ) (s : Text) → 0 < length (decode_three b s).bytes
unfolding decode_three
decode_three-bytes b [] = omega arith
decode_three-bytes b (x ∷ []) = omega arith
decode_three-bytes b (x ∷ y ∷ s) = ground arith

decode_four-bytes : (b : ℕ) (s : Text) → 0 < length (decode_four b s).bytes
unfolding decode_four
decode_four-bytes b [] = omega arith
decode_four-bytes b (x ∷ []) = omega arith
decode_four-bytes b (x ∷ y ∷ []) = omega arith
decode_four-bytes b (x ∷ y ∷ z ∷ s) = ground arith

decode_rune-bytes : (b : ℕ) (s : Text) → 0 < length (decode_rune b s).bytes
unfolding decode_rune
decode_rune-bytes b s =
    ground (arith, decode_two-bytes b s, decode_three-bytes b s, decode_four-bytes b s)

decode_rune-rest : (b : ℕ) (s : Text) → length (decode_rune b s).rest ≤ length s
decode_rune-rest b s = omega (
  arith,
  decode_rune-bytes b s,
  ap length (decode_rune-split b s),
  length-append (decode_rune b s).bytes (decode_rune b s).rest,
)

next_of-Shrinks : (r : Text) (s : Scanner) → s.rest ≡ r → Shrinks s (next_of r s)
unfolding next_of
next_of-Shrinks [] s e = inl refl
next_of-Shrinks (b ∷ r) s e =
    let d = decode_rune b r in
    let k = special-Keeps d (advance d s) in
    let moved : (advance d s).rest ≡ d.rest = unfold advance in refl in
    inr (omega (arith, ap length e, k.1, ap length moved, decode_rune-rest b r))

pub next-Shrinks : (s : Scanner) → Shrinks s (next s)
unfolding next
next-Shrinks s = next_of-Shrinks s.rest s refl

-- Enough fuel for a loop that stops by `p`, and at the end of the source.
abbrev pub Enough : (ℕ → Bool) → ℕ → ℕ × Scanner → Type 0
Enough p n (ch, s) = (length s.rest < n) ⊎ (p ch ≡ false)

escape-Shrinks :
    (quote : ℕ) (s : Scanner) → (quote == eof) ≡ false → Shrinks s (scan_escape quote s)
unfolding scan_escape
escape-Shrinks quote s q = elim (next-Shrinks s) [
  | inl at_eof ↦ inl (
      subst (λ c. (escape quote (c, (next s).1)).0 ≡ eof) (sym at_eof)
        (unfold escape in ground (arith, q)))
  | inr shorter ↦ inr (omega (arith, (escape-Keeps quote (next s)).1, shorter))
]

-- Enough rounds: one for each byte left, one for the end, and one more.
abbrev pub Rounds : ℕ → ℕ × Scanner → Type 0
Rounds n (ch, s) = (length s.rest + 1 < n) ⊎ ((ch ≡ eof) × (0 < n))

-- A round that reads leaves enough of them.
pub Rounds-next :
    (n : ℕ) (s : Scanner) (p : ℕ × Scanner) → Shrinks s p → length s.rest + 1 < suc n → Rounds n p
Rounds-next n s (ch, t) (inl at_eof) h = inr (at_eof, omega arith)
Rounds-next n s (ch, t) (inr shorter) h = inl (omega arith)

abbrev pub moved : ℕ → ℕ × Scanner → ℕ × Scanner
moved quote (ch, s) = if ch == b'\\' then scan_escape quote s else next s

pub moved-Shrinks :
    (quote : ℕ) (p : ℕ × Scanner) → (quote == eof) ≡ false → Shrinks p.1 (moved quote p)
moved-Shrinks quote (ch, s) q = elim (Bool-cases (ch == b'\\')) [
  | inl e ↦ rw e (escape-Shrinks quote s q)
  | inr e ↦ rw e (next-Shrinks s)
]

pub Rounds-start : (n : ℕ) (s : Scanner) → length s.rest + 1 < n → Rounds n (next s)
Rounds-start n s h = inl (omega (arith, (next-Keeps s).1))
