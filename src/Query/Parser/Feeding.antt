-- ===== src/Query/Parser/Feeding.antt =====
-- The lexer on a text that was written token by token.
use xuandb.Prelude.{◌<◌, ◌*◌, false, ◌==◌, refl, arith, List, [], ◌∷◌, ◌++◌, ◌≡◌, All}
use xuandb.Query.Run.{returned}
use xuandb.Query.Scanner.{Scanner}
use xuandb.Query.Scanner.Reading.{ahead, StartsPlain}
use xuandb.Query.Scanner.Ahead.{At}
use xuandb.Query.Scanner.Quotes.{IsQuotable}
use xuandb.Query.Lexer.Token.{end_token}
use xuandb.Query.Lexer.Lex.{Tables, lex}
use xuandb.Query.Scanner.Runes.{is_decimal, is_ident_rune, is_letter, is_digit}
use xuandb.Query.Scanner.Durations.Spans.{Stops}
use xuandb.Utils.Duration.{week}
use xuandb.Query.Lexer.Words.{lex-spelling}
use xuandb.Query.Lexer.Durations.{lex-duration}
use xuandb.Query.Lexer.Reading.{Lexes, lex-name, lex-literal, lex-equ, lex-end}
use xuandb.Query.Parser.Writing.{Written, word, name, literal, span, equ, token_of, text_of, write}

-- What can be written: a text is quotable, and a duration is positive and below 15250 weeks.
abbrev pub IsWritable : Written → Type 0
IsWritable (word k) = Unit
IsWritable (name w) = All (IsQuotable b'"') w
IsWritable (literal w) = All (IsQuotable b'\'') w
IsWritable (span d) = (0 < d) × (d < 15250 * week)
IsWritable equ = Unit

-- The lexer gives the tokens one by one, and then the end.
abbrev pub Feeds : Tables → Scanner → List Written → Type 0
Feeds tb s [] = (t : Scanner) × (lex tb s ≡ returned (end_token, t))
Feeds tb s (w ∷ ws) = (t : Scanner) × (lex tb s ≡ returned (token_of w, t)) × Feeds tb t ws

-- No word goes on behind a token.
write-stops :
    (tb : Tables) (ws : List Written) → is_ident_rune tb.classes (ahead (write ws)) ≡ false
unfolding write is_ident_rune is_letter is_digit
write-stops tb [] = refl
write-stops tb (w ∷ ws) = refl

pub write-StartsPlain : (ws : List Written) → StartsPlain (write ws)
unfolding write
write-StartsPlain [] = tt
write-StartsPlain (w ∷ ws) = (omega arith, omega arith)

write-tilde : (ws : List Written) → (ahead (write ws) == b'~') ≡ false
unfolding write
write-tilde [] = refl
write-tilde (w ∷ ws) = refl

write-Stops : (ws : List Written) → Stops (write ws)
unfolding write is_decimal
write-Stops [] = (tt, refl, refl)
write-Stops (w ∷ ws) = ((omega arith, omega arith), refl, refl)

lex_written :
    (tb : Tables) (s : Scanner) (w : Written) (ws : List Written)
    → IsWritable w
    → At s (b' ' ∷ (text_of w ++ write ws))
    → Lexes tb s (token_of w) (write ws)
unfolding text_of token_of
lex_written tb s (word k) ws h at =
    lex-spelling tb s k (write ws) at (write-StartsPlain ws) (write-stops tb ws)
lex_written tb s (name w) ws h at = lex-name tb s w (write ws) at h (write-StartsPlain ws)
lex_written tb s (literal w) ws h at = lex-literal tb s w (write ws) at h (write-StartsPlain ws)
lex_written tb s (span d) ws (h, k) at =
    lex-duration tb s d (write ws) at h k (write-Stops ws) (write-stops tb ws)
lex_written tb s equ ws h at = lex-equ tb s (write ws) at (write-StartsPlain ws) (write-tilde ws)

-- The lexer gives the tokens of what was written.
pub write-Feeds :
    (tb : Tables) (s : Scanner) (ws : List Written)
    → At s (write ws)
    → All IsWritable ws
    → Feeds tb s ws
unfolding write
write-Feeds tb s [] at a = let (t, e, _) = lex-end tb s at in (t, e)
write-Feeds tb s (w ∷ ws) at (h, a) =
    let (t, e, there) = lex_written tb s w ws h at in (t, e, write-Feeds tb t ws there a)
