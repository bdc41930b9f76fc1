-- ===== src/Query/Lexer/Reading.antt =====
-- What `Lex` of pkg/query/parser/lexer.go gives for the words and the quoted texts that a statement
-- is written with.
use xuandb.Prelude.{
  ℕ, zero, suc, ◌≡◌, ◌<◌, ◌≤◌, refl, arith, Bool, false, ◌==◌, ◌⊎◌, [], ◌∷◌, ◌++◌, All, length,
  length-append, ap, ◌∙◌,
}
use xuandb.Prelude.Text.{Text}
use xuandb.Query.Run.{returned}
use xuandb.Query.Scanner.{Scanner, token_text, peek}
use xuandb.Query.Scanner.Runes.{is_whitespace, is_letter, is_decimal, is_ident_rune}
use xuandb.Query.Scanner.Number.{ScanResult}
use xuandb.Query.Scanner.Scan.{scan, token}
use xuandb.Query.Scanner.Reading.{ahead, StartsPlain, AllIn}
use xuandb.Query.Scanner.Ahead.{At, peek-At}
use xuandb.Query.Scanner.Quotes.{IsQuotable, in_quotes}
use xuandb.Query.Scanner.Words.{Scans, scan-quoted, token-quoted, scan-word, scan-char, scan-end}
use xuandb.Query.Lexer.{unescaped, prepend, unescape, unescape_loop, read_rune, is_last}
use xuandb.Query.Lexer.Token.{Token, ident, val_str, end_token, op, op_equ}
use xuandb.Query.Lexer.Literals.{parse_ident}
use xuandb.Query.Lexer.Lex.{
  Tables, is_comment, unescape_token, lex_result, lex_loop, lex, more_reports, operator, choose,
}

-- A quotable text unescapes to itself.
read_quotable :
    (quote c f : ℕ) (rest : Text)
    → (c == quote) ≡ false
    → (c == b'\\') ≡ false
    → unescape_loop (suc f) quote (c ∷ rest) ≡ prepend (c ∷ []) (unescape_loop f quote rest)
unfolding unescape_loop read_rune
read_quotable quote c f rest q b = ground arith

loop_quotable :
    (quote f : ℕ) (w : Text)
    → (quote == b'\\') ≡ false
    → length w < f
    → All (IsQuotable quote) w
    → unescape_loop f quote (w ++ quote ∷ []) ≡ unescaped w
unfolding unescape_loop is_last prepend
loop_quotable quote zero w q h a = absurd (omega arith)
loop_quotable quote (suc f) [] q h a = ground arith
loop_quotable quote (suc f) (c ∷ w) q h ((low, high, other, plain), a) =
    read_quotable quote c f (w ++ quote ∷ []) (ground arith) (ground arith)
    ∙ ap (prepend (c ∷ [])) (loop_quotable quote f w q (omega arith) a)

unescape_quotable :
    (quote : ℕ) (w : Text)
    → (quote == b'\\') ≡ false
    → All (IsQuotable quote) w
    → unescape (in_quotes quote w) quote ≡ unescaped w
unfolding unescape
unescape_quotable quote w q a =
    loop_quotable quote _ w q (omega (arith, length-append w (quote ∷ []))) a

-- `Lex` gives the token `tok`, reports nothing, and stops before `tail`.
abbrev pub Lexes : Tables → Scanner → Token → Text → Type 0
Lexes tb s tok tail = (t : Scanner) × (lex tb s ≡ returned (tok, t)) × At t tail

pub lex_once :
    (tb : Tables) (s : Scanner) (r : ScanResult) (t : Scanner)
    → scan tb.classes s ≡ (r, t)
    → is_comment r ≡ false
    → lex tb s ≡ lex_result tb r (more_reports s t) t
unfolding lex lex_loop
lex_once tb s r t e c =
    let found : is_comment (scan tb.classes s).0 ≡ false = ap (λ p. is_comment p.0) e ∙ c in
    rw (found, lex_loop) (ap (λ p. lex_result tb p.0 (more_reports s p.1) p.1) e)

-- From the token of the scanner to the token of the lexer.
Scans-Lexes :
    (tb : Tables) (s : Scanner) (r : ScanResult) (piece tail : Text) (tok : Token)
    → is_comment r ≡ false
    → ((b : Bool) (t : Scanner) → token_text t ≡ piece → lex_result tb r b t ≡ returned (tok, t))
    → Scans tb.classes s r piece tail
    → Lexes tb s tok tail
Scans-Lexes tb s r piece tail tok c result (t, e, at, text, _) =
    (t, lex_once tb s r t e c ∙ result (more_reports s t) t text, at)

unescape_token-quotable :
    (make : Text → Token) (quote : ℕ) (w : Text) (t : Scanner)
    → (quote == b'\\') ≡ false
    → All (IsQuotable quote) w
    → token_text t ≡ in_quotes quote w
    → unescape_token make quote t ≡ returned (make w, t)
unfolding unescape_token
unescape_token-quotable make quote w t q a e =
    let known : unescape (token_text t) quote ≡ unescaped w =
      ap (λ x. unescape x quote) e ∙ unescape_quotable quote w q a in
    rw (known, unescape_token) refl

-- A name in double quotes is the identifier of its characters.
pub lex-name :
    (tb : Tables) (s : Scanner) (w tail : Text)
    → At s (b' ' ∷ (in_quotes b'"' w ++ tail))
    → All (IsQuotable b'"') w
    → StartsPlain tail
    → Lexes tb s (ident w) tail
unfolding is_whitespace is_comment lex_result
lex-name tb s w tail at a st =
    let cl = tb.classes in
    Scans-Lexes tb s ScanResult.quoted_ident (in_quotes b'"' w) tail (ident w) refl
      (λ b t e. unescape_token-quotable ident b'"' w t refl a e)
      (scan-quoted cl ScanResult.quoted_ident b'"' s (b' ' ∷ []) w tail (λ u. (token-quoted cl u).0)
        (omega arith, omega arith) refl at (((omega arith, omega arith), refl), tt) a st)

-- A text in single quotes is the string of its characters.
pub lex-literal :
    (tb : Tables) (s : Scanner) (w tail : Text)
    → At s (b' ' ∷ (in_quotes b'\'' w ++ tail))
    → All (IsQuotable b'\'') w
    → StartsPlain tail
    → Lexes tb s (val_str w) tail
unfolding is_whitespace is_comment lex_result
lex-literal tb s w tail at a st =
    let cl = tb.classes in
    Scans-Lexes tb s ScanResult.string (in_quotes b'\'' w) tail (val_str w) refl
      (λ b t e. unescape_token-quotable val_str b'\'' w t refl a e)
      (scan-quoted cl ScanResult.string b'\'' s (b' ' ∷ []) w tail (λ u. (token-quoted cl u).1)
        (omega arith, omega arith) refl at (((omega arith, omega arith), refl), tt) a st)

-- ASCII letters.
abbrev pub IsLetter : ℕ → Type 0
IsLetter c = ((b'A' ≤ c) × (c ≤ b'Z')) ⊎ ((b'a' ≤ c) × (c ≤ b'z'))

-- A word of letters is what `parse_ident` makes of it.
pub lex-word :
    (tb : Tables) (s : Scanner) (c : ℕ) (w tail : Text) (tok : Token)
    → At s (b' ' ∷ (c ∷ w ++ tail))
    → IsLetter c
    → All IsLetter w
    → parse_ident tb.unicode (c ∷ w) ≡ tok
    → StartsPlain tail
    → is_ident_rune tb.classes (ahead tail) ≡ false
    → Lexes tb s tok tail
unfolding is_whitespace is_letter is_ident_rune is_comment lex_result
lex-word tb s c w tail tok at letter all value st stop =
    let cl = tb.classes in
    Scans-Lexes tb s ScanResult.ident (c ∷ w) tail tok refl
      (λ b t e.
        ap (λ x. returned (parse_ident tb.unicode x, t)) e ∙ ap (λ x. returned (x, t)) value)
      (scan-word cl s (b' ' ∷ []) c w tail at (((omega arith, omega arith), refl), tt)
        (ground arith, ground arith) (ground arith) (ground arith) (each w all) st stop)
  where
    each : (w : Text) → All IsLetter w → AllIn (is_ident_rune tb.classes) w
    each [] a = tt
    each (c ∷ w) (letter, a) = (((ground arith, ground arith), ground arith), each w a)

-- An equals sign that no tilde follows.
pub lex-equ :
    (tb : Tables) (s : Scanner) (tail : Text)
    → At s (b' ' ∷ b'=' ∷ tail)
    → StartsPlain tail
    → (ahead tail == b'~') ≡ false
    → Lexes tb s (op op_equ) tail
unfolding is_whitespace is_comment lex_result token operator choose is_letter is_decimal
lex-equ tb s tail at st other =
    let cl = tb.classes in
    let (t, e, here, _, _) =
      scan-char cl s (b' ' ∷ []) b'=' tail at (((omega arith, omega arith), refl), tt)
        (omega arith, omega arith) refl (λ u. refl) st in
    let (there, next_is) = peek-At t tail here in
    let not_tilde : ((peek t).0 == b'~') ≡ false = ap (λ c. c == b'~') next_is ∙ other in
    ((peek t).1, lex_once tb s (ScanResult.char b'=') t e refl ∙ rw (not_tilde) refl, there)

-- The end of the source.
pub lex-end : (tb : Tables) (s : Scanner) → At s [] → Lexes tb s end_token []
unfolding is_comment lex_result
lex-end tb s at =
    Scans-Lexes tb s ScanResult.eof [] [] end_token refl (λ b t e. refl) (scan-end tb.classes s at)
