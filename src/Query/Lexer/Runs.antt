-- ===== src/Query/Lexer/Runs.antt =====
-- `Lex` of pkg/query/parser/lexer.go and the scanner's loops, without fuel.
use xuandb.Prelude.{
  ℕ, zero, suc, ◌≡◌, ◌≢◌, ◌<◌, refl, arith, Bool, true, false, ◌==◌, Bool-cases, inl, inr, [],
  length,
}
use xuandb.Query.Run.{Run}
use xuandb.Query.Scanner.{Scanner, next, eof as end_of_source}
use xuandb.Query.Scanner.Runes.{while_class}
use xuandb.Query.Scanner.Number.{ScanResult, digits, scan_duration}
use xuandb.Query.Scanner.Quoted.{scan_string, scan_block_comment}
use xuandb.Query.Scanner.Scan.{scan}
use xuandb.Query.Scanner.Fuel.Runs.{
  ClassRun, BlockRun, StringRun, DurationRun, while_class-run, scan_block_comment-run,
  scan_string-run, scan_duration-run,
}
use xuandb.Query.Scanner.Fuel.Durations.{DigitsRun, digits-run}
use xuandb.Query.Lexer.Settles.{scan-Shorter, lex_total}
use xuandb.Query.Lexer.Token.{Token}
use xuandb.Query.Lexer.Lex.{Tables, is_comment, more_reports, lex_result, lex_loop, lex}

-- The loop of `Lex`, which reads another token behind a comment.
pub data LexRun (tb : Tables) : Scanner → Run (Token × Scanner) → Type 0 where
  result :
      (s t : Scanner) (r : ScanResult)
      → scan tb.classes s ≡ (r, t)
      → is_comment r ≡ false
      → LexRun tb s (lex_result tb r (more_reports s t) t)
  comment :
      (s t : Scanner) (r : ScanResult) (out : Run (Token × Scanner))
      → scan tb.classes s ≡ (r, t)
      → is_comment r ≡ true
      → LexRun tb t out
      → LexRun tb s out

lex_loop-run :
    (tb : Tables) (n : ℕ) (s : Scanner) → length s.rest < n → LexRun tb s (lex_loop tb n s)
unfolding lex_loop
lex_loop-run tb zero s h = absurd (omega arith)
lex_loop-run tb (suc n) s h =
    let p = scan tb.classes s in
    elim (Bool-cases (is_comment (scan tb.classes s).0)) [
      | inl e ↦
          rw (e, lex_loop)
            (LexRun.comment s p.1 p.0 _ refl e (
              lex_loop-run tb n (scan tb.classes s).1 (omega (arith, scan-Shorter tb.classes s e))))
      | inr e ↦ rw (e, lex_loop) (LexRun.result s p.1 p.0 refl e)
    ]

lex-run : (tb : Tables) (s : Scanner) → LexRun tb s (lex tb s)
unfolding lex
lex-run tb s = lex_loop-run tb (suc (length s.rest)) s (omega arith)

-- The loops of the scanner and the loop of `Lex` end on every source, and what the model gives is
-- where they end: after finitely many rounds of the Go loop, each of which reads on where its tests
-- say so, a loop over a class of runes without the end of the source, the digits of a number, a
-- block comment, a quoted text whose quote is not the end of the source, the units of a duration,
-- and the comments before a token each leave their loop by one of its exits; and `Lex` never comes
-- to the empty panic that stands for no fuel.
pub loops_end :
    (tb : Tables) (p : ℕ → Bool) (quote ch base invalid : ℕ) (not_dec : Bool) (s : Scanner)
    → p end_of_source ≡ false
    → (quote == end_of_source) ≡ false
    → ClassRun p (ch, s) (while_class p ch s)
      × DigitsRun base
          (record { ch = ch; n = 0; invalid = invalid; s = s })
          (digits ch base invalid s)
      × BlockRun (next s) (scan_block_comment s)
      × ((t : Scanner) × StringRun quote (next s) t × (scan_string quote s ≡ next t))
      × DurationRun false not_dec ch s (scan_duration ch not_dec s)
      × LexRun tb s (lex tb s)
      × (lex tb s ≢ Run.panicked [])
loops_end tb p quote ch base invalid not_dec s h q = (
  while_class-run p ch s h,
  digits-run ch base invalid s,
  scan_block_comment-run s,
  scan_string-run quote s q,
  scan_duration-run ch not_dec s,
  lex-run tb s,
  lex_total tb s,
)
