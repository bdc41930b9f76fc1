-- ===== src/Query/Scanner/Words.antt =====
-- Scanning the tokens of a statement: words, quoted texts, single characters, and the end.
use mathlib.Core.Path.{subst}
use xuandb.Prelude.{
  ℕ, ◌≡◌, refl, arith, true, false, [], ◌∷◌, ◌++◌, append_assoc, append-nil, ◌∙◌, ap, sym, All,
  some,
}
use xuandb.Prelude.Text.{Text}
use xuandb.Query.Scanner.{Scanner, next, peek, invalidated, token_text, eof as end_of_source}
use xuandb.Query.Scanner.Runes.{
  Classes, is_letter, is_decimal, is_whitespace, is_ident_rune, while_class, scan_identifier,
}
use xuandb.Query.Scanner.Number.{
  ScanResult, Scanned, scanned, eof, ident, quoted_ident, string, char,
}
use xuandb.Query.Scanner.Quoted.{scan_string}
use xuandb.Query.Scanner.Scan.{scan, skip_whitespace, begin, start_token, token, set_lookahead}
use xuandb.Query.Scanner.Reading.{
  ahead, first, behind, IsPlain, StartsPlain, Read, next-Read, AllIn, while_class-Read,
}
use xuandb.Query.Scanner.Ahead.{At}
use xuandb.Query.Scanner.Quotes.{IsQuotable, in_quotes, scan_string-Read}

-- The scanner stands at the start of a token, with `body` before it.
abbrev pub Begun : Text → Scanner → ℕ × Scanner → Type 0
Begun body s (ch, u) =
    (ch ≡ ahead body)
    × (u.rest ≡ behind body)
    × (u.last_char ≡ first body)
    × (u.text ≡ [])
    × (u.collecting ≡ true)
    × (u.reports ≡ s.reports)

abbrev Skipped : Scanner → Text → Text → ℕ → Type 0
Skipped u blank body ch =
    ((while_class is_whitespace ch u).0 ≡ ahead body)
    × Read u blank body (while_class is_whitespace ch u).1

pub begin_lem :
    (s : Scanner) (blank body : Text)
    → At s (blank ++ body)
    → AllIn is_whitespace blank
    → StartsPlain body
    → is_whitespace (ahead body) ≡ false
    → Begun body s (begin (skip_whitespace (peek s)))
unfolding begin skip_whitespace start_token
begin_lem s blank body (e, r, l, k) a st stop =
    let p = (peek s).1 in
    let u : Scanner = record p { collecting = false; position = invalidated p.position } in
    let skipped = while_class-Read is_whitespace blank body u r l a st stop in
    let moved : Skipped u blank body (peek s).0 = subst (Skipped u blank body) (sym e) skipped in
    ground (arith, moved, k)

-- `scan` gives the token `tok` with the text `piece`, reports nothing, and stops before `tail`.
abbrev pub Scans : Classes → Scanner → ScanResult → Text → Text → Type 0
Scans cl s tok piece tail =
    (t : Scanner) × (scan cl s ≡ (tok, t))
    × At t tail
    × (token_text t ≡ piece)
    × (t.reports ≡ s.reports)

-- What the token's function has to do for that.
abbrev pub Takes : ScanResult → Text → Text → Scanner → Scanned → Type 0
Takes tok piece tail u r = (r.tok ≡ tok) × (r.ch ≡ ahead tail) × Read u piece tail r.s

pub Scans-Takes :
    (cl : Classes) (s : Scanner) (body : Text) (tok : ScanResult) (piece tail : Text)
    → let p = begin (skip_whitespace (peek s)) in
      Begun body s p → Takes tok piece tail p.1 (token cl p) → Scans cl s tok piece tail
unfolding scan set_lookahead token_text peek
Scans-Takes cl s body tok piece tail (ch, r, l, t, k, q) (a, b, w) =
    let taken = token cl (begin (skip_whitespace (peek s))) in
    (
      record taken.s { ch = some taken.ch },
      ap (λ x. (x, record taken.s { ch = some taken.ch })) a,
      (b, w.0, w.1, refl),
      ground (arith, k, t, w),
      ground (arith, q, w),
    )

-- A quoted text.
module _ (cl : Classes) where
  pub token-quoted :
      (u : Scanner)
      → (token cl (b'"', u) ≡ scanned quoted_ident (scan_string b'"' u))
        × (token cl (b'\'', u) ≡ scanned string (scan_string b'\'' u))
  unfolding token is_letter is_decimal
  token-quoted u = (refl, refl)

  quoted-Takes :
      (tok : ScanResult) (quote : ℕ) (w tail : Text) (u : Scanner)
      → IsPlain quote
      → All (IsQuotable quote) w
      → StartsPlain tail
      → u.rest ≡ behind (in_quotes quote w ++ tail)
      → u.last_char ≡ quote ∷ []
      → Takes tok (in_quotes quote w) tail u (scanned tok (scan_string quote u))
  quoted-Takes tok quote w tail u q a st r l =
      let e : u.rest ≡ w ++ quote ∷ tail = r ∙ append_assoc w (quote ∷ []) tail in
      let read = scan_string-Read quote w tail u q e l a st in (refl, read.0, read.1)

  -- The token is `token cl (ch, u)` once its first character is known.
  pub Takes-at :
      (tok : ScanResult) (piece tail : Text) (ch first_ch : ℕ) (u : Scanner) (r : Scanned)
      → ch ≡ first_ch
      → token cl (first_ch, u) ≡ r
      → Takes tok piece tail u r
      → Takes tok piece tail u (token cl (ch, u))
  Takes-at tok piece tail ch first_ch u r e known takes =
      let here : Takes tok piece tail u (token cl (first_ch, u)) =
        subst (λ x. Takes tok piece tail u x) (sym known) takes in
      subst (λ c. Takes tok piece tail u (token cl (c, u))) (sym e) here

  pub scan-quoted :
      (tok : ScanResult) (quote : ℕ) (s : Scanner) (blank w tail : Text)
      → ((u : Scanner) → token cl (quote, u) ≡ scanned tok (scan_string quote u))
      → IsPlain quote
      → is_whitespace quote ≡ false
      → At s (blank ++ (in_quotes quote w ++ tail))
      → AllIn is_whitespace blank
      → All (IsQuotable quote) w
      → StartsPlain tail
      → Scans cl s tok (in_quotes quote w) tail
  scan-quoted tok quote s blank w tail known q solid at white a st =
      let p = begin (skip_whitespace (peek s)) in
      let begun = begin_lem s blank (in_quotes quote w ++ tail) at white q solid in
      let takes = quoted-Takes tok quote w tail p.1 q a st begun.1 begun.2 in
      Scans-Takes cl s (in_quotes quote w ++ tail) tok (in_quotes quote w) tail begun (
        Takes-at tok (in_quotes quote w) tail p.0 quote p.1 (scanned tok (scan_string quote p.1))
          begun.0 (known p.1) takes)

  pub scan-word :
      (s : Scanner) (blank : Text) (c : ℕ) (w tail : Text)
      → At s (blank ++ (c ∷ w ++ tail))
      → AllIn is_whitespace blank
      → IsPlain c
      → is_whitespace c ≡ false
      → is_letter cl c ≡ true
      → AllIn (is_ident_rune cl) w
      → StartsPlain tail
      → is_ident_rune cl (ahead tail) ≡ false
      → Scans cl s ident (c ∷ w) tail
  scan-word s blank c w tail at white plain solid letter a st stop =
      let p = begin (skip_whitespace (peek s)) in
      let u = p.1 in
      let begun = begin_lem s blank (c ∷ w ++ tail) at white plain solid in
      let known : token cl (c, u) ≡ scanned ident (scan_identifier cl u) =
        unfold token in rw letter (ground arith) in
      let start = next-Read u (w ++ tail) (starts w a) begun.1 in
      let body =
        while_class-Read (is_ident_rune cl) w tail (next u).1 start.1.0 start.1.1 a st stop in
      let here : WordRead tail w (next u).1 (next u).0 =
        subst (WordRead tail w (next u).1) (sym start.0) body in
      let takes : Takes ident (c ∷ w) tail u (scanned ident (scan_identifier cl u)) =
        unfold scan_identifier in
        ground (arith, start, here, begun, append_assoc u.text (c ∷ []) w) in
      Scans-Takes cl s (c ∷ w ++ tail) ident (c ∷ w) tail begun (
        Takes-at ident (c ∷ w) tail p.0 c u (scanned ident (scan_identifier cl u)) begun.0 known
          takes)
    where
      WordRead : Text → Text → Scanner → ℕ → Type 0
      WordRead tail w u ch =
          ((while_class (is_ident_rune cl) ch u).0 ≡ ahead tail)
          × Read u w tail (while_class (is_ident_rune cl) ch u).1

      starts : (w : Text) → AllIn (is_ident_rune cl) w → StartsPlain (w ++ tail)
      starts [] a = st
      starts (c ∷ w) ((q, _), a) = q

  pub scan-char :
      (s : Scanner) (blank : Text) (c : ℕ) (tail : Text)
      → At s (blank ++ c ∷ tail)
      → AllIn is_whitespace blank
      → IsPlain c
      → is_whitespace c ≡ false
      → ((u : Scanner) → token cl (c, u) ≡ scanned (char c) (next u))
      → StartsPlain tail
      → Scans cl s (char c) (c ∷ []) tail
  scan-char s blank c tail at white plain solid known st =
      let p = begin (skip_whitespace (peek s)) in
      let u = p.1 in
      let begun = begin_lem s blank (c ∷ tail) at white plain solid in
      let read = next-Read u tail st begun.1 in
      let takes : Takes (char c) (c ∷ []) tail u (scanned (char c) (next u)) =
        ground (arith, read, begun) in
      Scans-Takes cl s (c ∷ tail) (char c) (c ∷ []) tail begun (
        Takes-at (char c) (c ∷ []) tail p.0 c u (scanned (char c) (next u)) begun.0 (known u) takes)

  pub scan-end : (s : Scanner) → At s [] → Scans cl s eof [] []
  unfolding token is_whitespace is_letter is_decimal
  scan-end s at =
      let p = begin (skip_whitespace (peek s)) in
      let u = p.1 in
      let begun = begin_lem s [] [] at tt tt refl in
      let takes : Takes eof [] [] u (scanned eof (end_of_source, u)) =
        ground (arith, begun, append-nil u.text) in
      Scans-Takes cl s [] eof [] [] begun
        (Takes-at eof [] [] p.0 end_of_source u (scanned eof (end_of_source, u)) begun.0 refl takes)
