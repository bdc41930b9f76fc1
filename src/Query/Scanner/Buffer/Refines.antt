-- ===== src/Query/Scanner/Buffer/Refines.antt =====
-- `next` with the buffer is `next` on the bytes that are left.
use mathlib.Core.Path.{subst}
use xuandb.Prelude.{
  ℕ, ◌+◌, ◌-◌, ◌≡◌, refl, arith, sym, ap, ◌∙◌, false, ◌==◌, Bool-cases, ◌⊎◌, inl, inr, [], ◌∷◌,
  ◌++◌, append-nil, length, take, drop, drop-length, take-length, Option, none, some,
}
use xuandb.Prelude.Text.{Text, codes}
use xuandb.Query.Utf8.{Decoded, decode_rune}
use xuandb.Query.Utf8.RoundTrip.{decode_rune-split}
use xuandb.Query.Scanner.{
  Scanner, token_text, advance, new_line, special, at_end, next_of, next, eof,
}
use xuandb.Query.Scanner.Buffer.{
  Buffered, text_at, buffered_text, buffered_end, fill, is_empty, needs_more, full_rune,
  buffered_advance, buffered_new_line, buffered_special, buffered_char, filled_char, is_uncommon,
  buffered_next,
}
use xuandb.Query.Scanner.Buffer.Decoding.{decode-Stable}
use xuandb.Query.Scanner.Buffer.Filling.{whole_at, IsWithin, Filling, FillResult, fill-Result}
use xuandb.Query.Scanner.Buffer.Kept.{
  LastAt, Implements, Implements-Filling, advance-Implements, error-Implements,
}

new_line-Implements :
    (b : Buffered) (s : Scanner) → Implements b s → Implements (buffered_new_line b) (new_line s)
unfolding buffered_new_line new_line buffered_text token_text
new_line-Implements b s
      ((rest, offset, line, column, lll, len, ch, reports, position, fits), collects, text, last) =
    (
      (rest, offset, ap (λ n. n + 1) line, refl, column, len, ch, reports, position, fits),
      collects,
      text,
      last,
    )

special-Implements :
    (d : Decoded) (b : Buffered) (s : Scanner)
    → Implements b s
    → Implements (buffered_special d b) (special d s)
unfolding buffered_special special
special-Implements d b s h = elim (Bool-cases d.invalid) [
  | inl e ↦ rw e (error-Implements (codes "invalid UTF-8 encoding") b s h)
  | inr e ↦ elim (Bool-cases (d.rune == 0)) [
    | inl f ↦ rw (e, f) (error-Implements (codes "invalid character NUL") b s h)
    | inr f ↦ elim (Bool-cases (d.rune == b'\n')) [
      | inl k ↦ rw (e, f, k) (new_line-Implements b s h)
      | inr k ↦ rw (e, f, k) h
    ]
  ]
]

-- One result of the two.
abbrev pub Same : ℕ × Buffered → ℕ × Scanner → Type 0
Same (c, b) (d, s) = (c ≡ d) × Implements b s

char-Same :
    (c : ℕ) (r : Text) (b : Buffered) (s : Scanner)
    → Filling b s
    → b.ahead ≡ c ∷ r
    → decode_rune c (r ++ b.unread)
      ≡ record (decode_rune c r) { rest = (decode_rune c r).rest ++ b.unread }
    → Same (buffered_char (c ∷ r) b) (next_of (c ∷ r ++ b.unread) s)
unfolding buffered_char next_of special
char-Same c r b s filling e stable =
    let d = decode_rune c r in
    let shown : Decoded = record d { rest = d.rest ++ b.unread } in
    let advanced = advance-Implements b s d filling (decode_rune-split c r ∙ sym e) in
    let same : Same (d.rune, buffered_special d (buffered_advance d b))
        (shown.rune, special shown (advance shown s)) =
      (refl, special-Implements d (buffered_advance d b) (advance shown s) advanced) in
    subst
      (λ k.
        Same (d.rune, buffered_special d (buffered_advance d b)) (k.rune, special k (advance k s)))
      (sym stable) same

-- A full rune, or all that there is.
settled_stable :
    (c : ℕ) (r u : Text)
    → (needs_more (c ∷ r) ≡ false) ⊎ (u ≡ [])
    → decode_rune c (r ++ u) ≡ record (decode_rune c r) { rest = (decode_rune c r).rest ++ u }
settled_stable c r u (inl full) = decode-Stable c r u full
settled_stable c r u (inr none_left) =
    let d = decode_rune c r in
    ap (λ u. decode_rune c (r ++ u)) none_left
    ∙ ap (decode_rune c) (append-nil r)
    ∙ sym (ap (λ u. shown_with d u) none_left ∙ ap (λ t. record d { rest = t }) (append-nil d.rest))
  where
    shown_with : Decoded → Text → Decoded
    shown_with d u = record d { rest = d.rest ++ u }

-- The character at the start of a buffer that the loop has filled.
filled-Same :
    (b : Buffered) (s : Scanner) (a : Text)
    → b.ahead ≡ a
    → is_empty a ≡ false
    → (needs_more a ≡ false) ⊎ (b.unread ≡ [])
    → Filling b s
    → Same (buffered_char a b) (next s)
unfolding next
filled-Same b s [] e some_left settled filling = absurd (cc some_left)
filled-Same b s (c ∷ r) e some_left settled filling =
    let rest : c ∷ r ++ b.unread ≡ s.rest = ap (λ t. t ++ b.unread) (sym e) ∙ filling.0.0 in
    subst (λ t. Same (buffered_char (c ∷ r) b) (next_of t s)) rest
      (char-Same c r b s filling e (settled_stable c r b.unread settled))

minus_zero : (b : Buffered) → length b.before - 0 ≡ length b.before
minus_zero b = omega arith

ended_text :
    (b : Buffered) (o : Option ℕ) → text_at (record b { last_char_len = 0 }) o ≡ whole_at b o
ended_text b none = refl
ended_text b (some i) =
    ap (λ n. b.tok_buf ++ drop i (take n b.before)) (minus_zero b)
    ∙ ap (λ t. b.tok_buf ++ drop i t) (take-length b.before)

ended_last :
    (b : Buffered) (o : Option ℕ)
    → IsWithin o (length b.before)
    → LastAt (record b { last_char_len = 0 }) o []
ended_last b none h = (omega arith, ap (λ n. drop n b.before) (minus_zero b) ∙ drop-length b.before)
ended_last b (some i) h =
    (omega arith, ap (λ n. drop n b.before) (minus_zero b) ∙ drop-length b.before, omega (arith, h))

ended-Same :
    (u : Buffered) (s : Scanner)
    → Filling u s
    → u.ahead ≡ []
    → u.unread ≡ []
    → Same (eof, buffered_end u) (next s)
unfolding next next_of buffered_end at_end buffered_text token_text
ended-Same u s (agrees, collects, text, within) none_ahead none_left =
    let (rest, offset, line, column, lll, len, ch, reports, position, fits) = agrees in
    let nothing : [] ≡ s.rest = sym (ap (λ t. t ++ u.unread) none_ahead ∙ none_left) ∙ rest in
    subst (λ t. Same (eof, buffered_end u) (next_of t s)) nothing
      (
        refl,
        (
          (rest, offset, line, ground (arith, column, len), lll, refl, ch, reports, position, fits),
          collects,
          ended_text u u.tok_pos ∙ text,
          ended_last u u.tok_pos within,
        ),
      )

fill_next-Same :
    (r : Buffered ⊎ Buffered) (s : Scanner) → FillResult r s → Same (filled_char r) (next s)
fill_next-Same (inl b) s (u, e, filling, _, none_ahead, none_left) =
    subst (λ b. Same (eof, b) (next s)) (sym e) (ended-Same u s filling none_ahead none_left)
fill_next-Same (inr b) s (filling, some_left, settled) =
    filled-Same b s b.ahead refl some_left settled filling

common_full : (a : Text) → is_uncommon a ≡ false → (is_empty a ≡ false) × (needs_more a ≡ false)
unfolding full_rune
common_full [] e = absurd (cc e)
common_full (c ∷ []) e = (refl, ground arith)
common_full (c ∷ d ∷ []) e = (refl, ground arith)
common_full (c ∷ d ∷ g ∷ []) e = (refl, ground arith)
common_full (c ∷ d ∷ g ∷ h ∷ r) e = (refl, ground arith)

-- Whatever the sizes of the reads are, `next` with the buffer gives the character that `next` gives
-- on the bytes that are left, and leaves a buffer that stands for the scanner that this leaves.
pub next-Same :
    (pick : ℕ → Text → ℕ) (b : Buffered) (s : Scanner)
    → Implements b s
    → Same (buffered_next pick b) (next s)
unfolding buffered_next
next-Same pick b s h =
    let filling = Implements-Filling b s h in
    elim (Bool-cases (is_uncommon b.ahead)) [
      | inl uncommon ↦
          rw uncommon
            (fill_next-Same (fill pick 4 b) s (fill-Result pick 4 b s filling (omega arith)))
      | inr common ↦
          let (some_left, full) = common_full b.ahead common in
          rw common (filled-Same b s b.ahead refl some_left (inl full) filling)
    ]
