-- ===== src/Query/Scanner/Buffer/Tests.antt =====
-- A session on a reader that gives one byte at a time.
use xuandb.Prelude.{ℕ, zero, suc, ltb, if◌then◌else◌, ◌+◌, ◌≡◌, ◌≤◌, [], ◌∷◌, length}
use xuandb.Prelude.Text.{Text, codes}
use xuandb.Query.Scanner.{init}
use xuandb.Query.Scanner.Buffer.{Buffered, buf_len, buffered_init}
use xuandb.Query.Scanner.Buffer.Session.{
  Use, done, ask, Seen, seen_buffer, seen_scanner, read_next, reset, start, keep, report,
  run_buffer, run_scanner, session_agrees,
}

abbrev one_byte : ℕ → Text → ℕ
one_byte room src = 0

-- "hé" and a new line
abbrev accented : Text
accented = 104 ∷ 195 ∷ 169 ∷ 10 ∷ []

-- The rest of a word, up to a character that is no letter in ASCII; `left` bounds its length.
abbrev more_letters : ℕ → Seen → Use
more_letters zero seen = done
more_letters (suc left) seen =
    if ltb seen.char 64 then ask keep (λ s. done) else ask read_next (more_letters left)

abbrev word : Use
word = ask read_next (λ a.
    ask reset
      (λ b. ask start (λ c. ask read_next (λ d. ask (report (codes "odd")) (more_letters 5)))))

abbrev word_buffer : ℕ × Buffered
word_buffer = run_buffer one_byte word (0, buffered_init accented)

session_agrees_example :
    (seen_buffer word_buffer ≡ seen_scanner (run_scanner word (0, init accented)))
    × (length word_buffer.1.before + length word_buffer.1.ahead ≤ buf_len)
session_agrees_example = session_agrees one_byte accented word
