-- ===== src/Query/Scanner/Buffer/Session.antt =====
-- What the functions of pkg/query/parser/scanner.go do to the buffer, in any order.
use mathlib.Core.Path.{subst}
use xuandb.Prelude.{ℕ, ◌∙◌, ◌+◌, ◌≡◌, ◌≤◌, refl, arith, ap, false, List, length, Option, none, some}
use xuandb.Prelude.Text.{Text}
use xuandb.Query.Scanner.{
  Scanner, Position, Report, next, error, init, token_text, invalidated, set_ch,
}
use xuandb.Query.Scanner.Scan.{start_token}
use xuandb.Query.Scanner.Buffer.{
  Buffered, buf_len, buffered_init, buffered_next, buffered_error, buffered_reset, buffered_start,
  buffered_text,
}
use xuandb.Query.Scanner.Buffer.Kept.{LastAt, Implements, error-Implements, tail_kept}
use xuandb.Query.Scanner.Buffer.Refines.{Same, next-Same}

-- Reading a character, stopping to collect the text, starting to collect it, reporting an error, and
-- keeping the character as the look-ahead.
pub data Op : Type 0 where
  read_next reset start keep : Op
  report : Text → Op

unfoldable pub on_buffer : (ℕ → Text → ℕ) → Op → ℕ × Buffered → ℕ × Buffered
on_buffer pick read_next (c, b) = buffered_next pick b
on_buffer pick reset (c, b) = (c, buffered_reset b)
on_buffer pick start (c, b) = (c, buffered_start b)
on_buffer pick keep (c, b) = (c, record b { ch = some c })
on_buffer pick (report msg) (c, b) = (c, buffered_error msg b)

unfoldable pub on_scanner : Op → ℕ × Scanner → ℕ × Scanner
on_scanner read_next (c, s) = next s
on_scanner reset (c, s) = (c, record s { collecting = false; position = invalidated s.position })
on_scanner start (c, s) = (c, start_token s)
on_scanner keep (c, s) = set_ch (c, s)
on_scanner (report msg) (c, s) = (c, error msg s)

-- What can be seen of a scanner, besides the character that was read last.
pub record Seen : Type 0 where
  pub char : ℕ
  pub token : Text
  pub at_position : Position
  pub look_ahead : Option ℕ
  pub told : List Report

unfoldable pub seen_buffer : ℕ × Buffered → Seen
seen_buffer (c, b) = record {
  char = c;
  token = buffered_text b;
  at_position = b.position;
  look_ahead = b.ch;
  told = b.reports;
}

unfoldable pub seen_scanner : ℕ × Scanner → Seen
seen_scanner (c, s) = record {
  char = c;
  token = token_text s;
  at_position = s.position;
  look_ahead = s.ch;
  told = s.reports;
}

-- A caller of the operations, which chooses the next one by what it sees, as `Scan` does.
pub data Use : Type 0 where
  done : Use
  ask : Op → (Seen → Use) → Use

unfoldable pub run_buffer : (ℕ → Text → ℕ) → Use → ℕ × Buffered → ℕ × Buffered
run_buffer pick done p = p
run_buffer pick (ask op then_ask) p =
    let q = on_buffer pick op p in run_buffer pick (then_ask (seen_buffer q)) q

unfoldable pub run_scanner : Use → ℕ × Scanner → ℕ × Scanner
run_scanner done p = p
run_scanner (ask op then_ask) p =
    let q = on_scanner op p in run_scanner (then_ask (seen_scanner q)) q

LastAt-none : (b : Buffered) (o : Option ℕ) (last : Text) → LastAt b o last → LastAt b none last
LastAt-none b none last h = h
LastAt-none b (some i) last (fits, e, h) = (fits, e)

reset-Implements :
    (b : Buffered) (s : Scanner)
    → Implements b s
    → Implements
        (buffered_reset b)
        (record s { collecting = false; position = invalidated s.position })
unfolding buffered_reset buffered_text token_text
reset-Implements b s
      ((rest, offset, line, column, lll, len, ch, reports, position, fits), collects, text, last) =
    (
      (rest, offset, line, column, lll, len, ch, reports, ap invalidated position, fits),
      refl,
      refl,
      LastAt-none b b.tok_pos s.last_char last,
    )

start-Implements :
    (b : Buffered) (s : Scanner) → Implements b s → Implements (buffered_start b) (start_token s)
unfolding buffered_start start_token buffered_text token_text
start-Implements b s
      ((rest, offset, line, column, lll, len, ch, reports, position, fits), collects, text, last) =
    let (held, e) = LastAt-none b b.tok_pos s.last_char last in
    (
      (
        rest,
        offset,
        line,
        column,
        lll,
        len,
        ch,
        reports,
        ground (arith, offset, line, column, lll, len, held),
        fits,
      ),
      refl,
      tail_kept b,
      (held, e, omega arith),
    )

on-Same :
    (pick : ℕ → Text → ℕ) (op : Op) (p : ℕ × Buffered) (q : ℕ × Scanner)
    → Same p q
    → Same (on_buffer pick op p) (on_scanner op q)
unfolding on_buffer on_scanner set_ch buffered_text token_text
on-Same pick read_next (c, b) (d, s) (e, h) = next-Same pick b s h
on-Same pick reset (c, b) (d, s) (e, h) = (e, reset-Implements b s h)
on-Same pick start (c, b) (d, s) (e, h) = (e, start-Implements b s h)
on-Same pick keep (c, b) (d, s)
      (
        e,
        ((rest, offset, line, column, lll, len, ch, reports, position, fits), collects, text, last),
      ) =
    (
      e,
      (
        (rest, offset, line, column, lll, len, ap some e, reports, position, fits),
        collects,
        text,
        last,
      ),
    )
on-Same pick (report msg) (c, b) (d, s) (e, h) = (e, error-Implements msg b s h)

abbrev seen_as : ℕ → Text → Position → Option ℕ → List Report → Seen
seen_as c text position ch reports = record {
  char = c;
  token = text;
  at_position = position;
  look_ahead = ch;
  told = reports;
}

seen_lem :
    (c d : ℕ) (v w : Text) (p q : Position) (o u : Option ℕ) (rs qs : List Report)
    → c ≡ d
    → v ≡ w
    → p ≡ q
    → o ≡ u
    → rs ≡ qs
    → seen_as c v p o rs ≡ seen_as d w q u qs
seen_lem c d v w p q o u rs qs e text position ch reports =
    ap (λ c. seen_as c v p o rs) e
    ∙ ap (λ v. seen_as d v p o rs) text
    ∙ ap (λ p. seen_as d w p o rs) position
    ∙ ap (λ o. seen_as d w q o rs) ch
    ∙ ap (λ rs. seen_as d w q u rs) reports

Same-seen : (p : ℕ × Buffered) (q : ℕ × Scanner) → Same p q → seen_buffer p ≡ seen_scanner q
unfolding seen_buffer seen_scanner
Same-seen (c, b) (d, s)
      (
        e,
        ((rest, offset, line, column, lll, len, ch, reports, position, fits), collects, text, last),
      ) =
    seen_lem c d (buffered_text b) (token_text s) b.position s.position b.ch s.ch b.reports
      s.reports e text position ch reports

run-Same :
    (pick : ℕ → Text → ℕ) (use_it : Use) (p : ℕ × Buffered) (q : ℕ × Scanner)
    → Same p q
    → Same (run_buffer pick use_it p) (run_scanner use_it q)
unfolding run_buffer run_scanner
run-Same pick done p q h = h
run-Same pick (ask op then_ask) p q h =
    let q2 = on_scanner op q in
    let same = on-Same pick op p q h in
    let p2 = on_buffer pick op p in
    subst
      (λ seen.
        Same (run_buffer pick (then_ask (seen_buffer p2)) p2) (run_scanner (then_ask seen) q2))
      (Same-seen p2 q2 same) (run-Same pick (then_ask (seen_buffer p2)) p2 q2 same)

init-Implements : (src : Text) → Implements (buffered_init src) (init src)
unfolding buffered_init init buffered_text token_text
init-Implements src = (
  (refl, refl, refl, refl, refl, refl, refl, refl, refl, omega arith),
  refl,
  refl,
  (omega arith, refl),
)

-- A session of any caller, who chooses each operation by what it saw, on a new scanner, shows the
-- same with the buffer, whatever number of bytes each read gives (at least one where a byte is
-- left), as on the whole source: the same character, token text, position of the token, look-ahead
-- character and reports. The buffer never holds more bytes than its size.
pub session_agrees :
    (pick : ℕ → Text → ℕ) (src : Text) (use_it : Use)
    → let p = run_buffer pick use_it (0, buffered_init src) in
      (seen_buffer p ≡ seen_scanner (run_scanner use_it (0, init src)))
      × (length p.1.before + length p.1.ahead ≤ buf_len)
session_agrees pick src use_it =
    let p = run_buffer pick use_it (0, buffered_init src) in
    let q = run_scanner use_it (0, init src) in
    let same =
      run-Same pick use_it (0, buffered_init src) (0, init src) (refl, init-Implements src) in
    (Same-seen p q same, held p q same)
  where
    held :
        (p : ℕ × Buffered) (q : ℕ × Scanner)
        → Same p q
        → length p.1.before + length p.1.ahead ≤ buf_len
    held (c, b) (d, s)
          (
            e,
            (
              (rest, offset, line, column, lll, len, ch, reports, position, fits),
              collects,
              text,
              last,
            ),
          ) =
        fits
