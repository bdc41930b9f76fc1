-- ===== src/Query/Scanner/Buffer/Kept.antt =====
-- When the buffer stands for a scanner: the text of the token, the position, and reports.
use mathlib.Core.Path.{subst}
use xuandb.Prelude.{
  ℕ, ◌+◌, ◌-◌, ◌≡◌, ◌≤◌, refl, arith, sym, ap, ◌∙◌, Bool, true, false, ◌==◌, ltb, if◌then◌else◌,
  Bool-cases, inl, inr, List, [], ◌∷◌, ◌++◌, append_assoc, append-nil, length, length-append, take,
  drop, take-drop, length-take, drop-append, take-append, drop-append_left, drop-length, Option,
  none, some,
}
use xuandb.Prelude.Text.{Text}
use xuandb.Query.Utf8.{Decoded}
use xuandb.Query.Scanner.{Scanner, Report, Position, token_text, pos, error, advance}
use xuandb.Query.Scanner.Buffer.{
  Buffered, tok_end, tail_from, text_at, buffered_text, keep_at, keep_text, buffered_pos,
  buffered_error, buffered_advance,
}
use xuandb.Query.Scanner.Buffer.Filling.{Agrees, is_collecting, whole_at, IsWithin, Filling}

-- The last character is the end of what was read, and the token starts before it.
abbrev pub LastAt : Buffered → Option ℕ → Text → Type 0
LastAt b none last = (b.last_char_len ≤ length b.before) × (drop (tok_end b) b.before ≡ last)
LastAt b (some i) last =
    (b.last_char_len ≤ length b.before) × (drop (tok_end b) b.before ≡ last) × (i ≤ tok_end b)

-- The buffer stands for the scanner.
abbrev pub Implements : Buffered → Scanner → Type 0
Implements b s =
    Agrees b s
    × (is_collecting b.tok_pos ≡ s.collecting)
    × (buffered_text b ≡ token_text s)
    × LastAt b b.tok_pos s.last_char

whole_split :
    (k i : ℕ) (before : Text)
    → i ≤ k
    → k ≤ length before
    → drop i before ≡ drop i (take k before) ++ drop k before
whole_split k i before h fits =
    ap (drop i) (sym (take-drop k before))
    ∙ drop-append_left i (take k before) (drop k before) (omega (arith, length-take k before fits))

whole_lem :
    (b : Buffered) (o : Option ℕ) (collecting : Bool) (text last : Text)
    → is_collecting o ≡ collecting
    → text_at b o ≡ (if collecting then text else [])
    → LastAt b o last
    → whole_at b o ≡ (if collecting then text ++ last else [])
whole_lem b none collecting text last c e l = rw⁻¹ c refl
whole_lem b (some i) false text last c e l = absurd (cc c)
whole_lem b (some i) true text last c e (fits, l, h) =
    let split = whole_split (tok_end b) i b.before h (omega arith) in
    ap (λ t. b.tok_buf ++ t) (split ∙ ap (λ t. tail_from b i ++ t) l)
    ∙ sym (append_assoc b.tok_buf (tail_from b i) last)
    ∙ ap (λ t. t ++ last) e

within_lem :
    (b : Buffered) (o : Option ℕ) (last : Text) → LastAt b o last → IsWithin o (length b.before)
within_lem b none last l = tt
within_lem b (some i) last (fits, l, h) = omega arith

pub Implements-Filling : (b : Buffered) (s : Scanner) → Implements b s → Filling b s
unfolding buffered_text token_text
Implements-Filling b s (agrees, collects, text, last) = (
  agrees,
  collects,
  whole_lem b b.tok_pos s.collecting s.text s.last_char collects text last,
  within_lem b b.tok_pos s.last_char last,
)

-- Behind a character of `bytes`: the token's text is what it was with the last character.
behind_text :
    (b : Buffered) (bytes : Text) (o : Option ℕ)
    → text_at (record b { before = b.before ++ bytes; last_char_len = length bytes }) o
      ≡ whole_at b o
behind_text b bytes none = refl
behind_text b bytes (some i) =
    let e : length (b.before ++ bytes) - length bytes ≡ length b.before =
      omega (arith, length-append b.before bytes) in
    ap (λ n. b.tok_buf ++ drop i (take n (b.before ++ bytes))) e
    ∙ ap (λ t. b.tok_buf ++ drop i t) (take-append b.before bytes)

behind_last :
    (b : Buffered) (bytes : Text) (o : Option ℕ)
    → IsWithin o (length b.before)
    → LastAt (record b { before = b.before ++ bytes; last_char_len = length bytes }) o bytes
behind_last b bytes o h = go o h
  where
    e : length (b.before ++ bytes) - length bytes ≡ length b.before
    e = omega (arith, length-append b.before bytes)

    fits : length bytes ≤ length (b.before ++ bytes)
    fits = omega (arith, length-append b.before bytes)

    last : drop (length (b.before ++ bytes) - length bytes) (b.before ++ bytes) ≡ bytes
    last = ap (λ n. drop n (b.before ++ bytes)) e ∙ drop-append b.before bytes

    go :
        (o : Option ℕ)
        → IsWithin o (length b.before)
        → LastAt (record b { before = b.before ++ bytes; last_char_len = length bytes }) o bytes
    go none h = (fits, last)
    go (some i) h = (fits, last, omega (arith, e))

-- The decoded character `d` of a buffer, of which the source shows `d` with the rest behind it.
pub advance-Implements :
    (b : Buffered) (s : Scanner) (d : Decoded)
    → Filling b s
    → d.bytes ++ d.rest ≡ b.ahead
    → Implements (buffered_advance d b) (advance (record d { rest = d.rest ++ b.unread }) s)
unfolding buffered_advance advance buffered_text token_text
advance-Implements b s d (agrees, collects, text, within) split =
    let (rest, offset, line, column, last, len, ch, reports, position, fits) = agrees in
    let sizes = length-append d.bytes d.rest in
    let grown = length-append b.before d.bytes in
    (
      (
        refl,
        omega (arith, offset, grown),
        line,
        ap (λ n. n + 1) column,
        last,
        refl,
        ch,
        reports,
        position,
        omega (arith, fits, sizes, grown, ap length split),
      ),
      collects,
      behind_text b d.bytes b.tok_pos ∙ text,
      behind_last b d.bytes b.tok_pos within,
    )

pos_lem : (b : Buffered) (s : Scanner) → Agrees b s → buffered_pos b ≡ pos s
unfolding buffered_pos pos
pos_lem b s (rest, offset, line, column, last, len, ch, reports, position, fits) =
    ground (arith, offset, line, column, last, len)

-- `TokenText` may keep a part of the text; it changes nothing that can be seen.
abbrev Kept : Buffered → Buffered → Option ℕ → Text → Type 0
Kept c b o last =
    (text_at c c.tok_pos ≡ text_at b o)
    × LastAt c c.tok_pos last
    × (is_collecting c.tok_pos ≡ is_collecting o)

same-Kept :
    (b : Buffered) (o : Option ℕ) (last : Text) → b.tok_pos ≡ o → LastAt b o last → Kept b b o last
same-Kept b o last e l =
    (ap (text_at b) e, subst (λ o. LastAt b o last) (sym e) l, ap is_collecting e)

pub tail_kept : (b : Buffered) → drop (tok_end b) (take (tok_end b) b.before) ≡ []
tail_kept b =
    ap (λ n. drop n (take (tok_end b) b.before))
      (sym (length-take (tok_end b) b.before (omega arith)))
    ∙ drop-length (take (tok_end b) b.before)

keep_at-Kept :
    (b : Buffered) (o : Option ℕ) (last : Text)
    → b.tok_pos ≡ o
    → LastAt b o last
    → Kept (keep_at b o) b o last
keep_at-Kept b none last e l = same-Kept b none last e l
keep_at-Kept b (some i) last e (fits, l, h) = elim (Bool-cases (length b.tok_buf == 0)) [
  | inl empty ↦ rw empty (same-Kept b (some i) last e (fits, l, h))
  | inr kept ↦
      let text = b.tok_buf ++ tail_from b i in
      rw kept (ap (λ t. text ++ t) (tail_kept b) ∙ append-nil text, (fits, l, omega arith), refl)
]

abbrev reported_at : List Report → Position → Position → Text → Text → List Report
reported_at reports position here text msg =
    let report : Report = record {
      position = if ltb 0 position.line then position else here;
      text = text;
      msg = msg;
    } in
    reports ++ report ∷ []

reported_lem :
    (rs rs' : List Report) (p p' here here' : Position) (text text' msg : Text)
    → rs ≡ rs'
    → p ≡ p'
    → here ≡ here'
    → text ≡ text'
    → reported_at rs p here text msg ≡ reported_at rs' p' here' text' msg
reported_lem rs rs' p p' here here' text text' msg a b c d =
    ap (λ rs. reported_at rs p here text msg) a
    ∙ ap (λ p. reported_at rs' p here text msg) b
    ∙ ap (λ here. reported_at rs' p' here text msg) c
    ∙ ap (λ text. reported_at rs' p' here' text msg) d

keep_at-fields : (b : Buffered) (s : Scanner) (o : Option ℕ) → Agrees b s → Agrees (keep_at b o) s
keep_at-fields b s none h = h
keep_at-fields b s (some i) h = elim (Bool-cases (length b.tok_buf == 0)) [
  | inl e ↦ rw e h
  | inr e ↦ rw e h
]

pub error-Implements :
    (msg : Text) (b : Buffered) (s : Scanner)
    → Implements b s
    → Implements (buffered_error msg b) (error msg s)
unfolding buffered_error error keep_text buffered_text token_text
error-Implements msg b s (agrees, collects, text, last) =
    let (kept_text, kept_last, kept) = keep_at-Kept b b.tok_pos s.last_char refl last in
    let (rest, offset, line, column, lll, len, ch, reports, position, fits) = agrees in
    let reported =
      reported_lem b.reports s.reports b.position s.position (buffered_pos b) (pos s)
        (buffered_text b) (token_text s) msg reports position (pos_lem b s agrees) text in
    let (rest', offset', line', column', lll', len', ch', _, position', fits') =
      keep_at-fields b s b.tok_pos agrees in
    (
      (rest', offset', line', column', lll', len', ch', reported, position', fits'),
      kept ∙ collects,
      kept_text ∙ text,
      kept_last,
    )
