-- ===== src/Query/Scanner/Quotes.antt =====
-- Scanning quoted texts of printable ASCII.
use mathlib.Core.Path.{subst}
use xuandb.Prelude.{
  ℕ, zero, suc, ◌<◌, ◌≤◌, ◌≡◌, ◌≢◌, arith, false, ◌==◌, ◌||◌, [], ◌∷◌, ◌++◌, append_assoc,
  append-nil, ap, sym, All, length, length-append,
}
use xuandb.Prelude.Text.{Text}
use xuandb.Query.Scanner.{Scanner, next, is_negative}
use xuandb.Query.Scanner.Quoted.{string_loop, scan_string}
use xuandb.Query.Scanner.Reading.{ahead, first, behind, IsPlain, StartsPlain, Read, next-Read}

-- A printable byte that is neither the quote nor a backslash.
abbrev pub IsQuotable : ℕ → ℕ → Type 0
IsQuotable quote c = (32 ≤ c) × (c < 127) × (c ≢ quote) × (c ≢ b'\\')

abbrev Stopped : ℕ → Text → Text → ℕ → Scanner → ℕ → Type 0
Stopped quote w tail n s ch = Read s w (quote ∷ tail) (string_loop n quote (ch, s))

string_loop-Read :
    (quote : ℕ) (w tail : Text) (n : ℕ) (s : Scanner)
    → length w ≤ n
    → IsPlain quote
    → s.rest ≡ behind (w ++ quote ∷ tail)
    → s.last_char ≡ first (w ++ quote ∷ tail)
    → All (IsQuotable quote) w
    → Stopped quote w tail n s (ahead (w ++ quote ∷ tail))
unfolding string_loop
string_loop-Read quote [] tail zero s m q r l a = ground (arith, append-nil s.text)
string_loop-Read quote (c ∷ w) tail zero s m q r l a = absurd (omega arith)
string_loop-Read quote [] tail (suc n) s m q r l a = ground (arith, append-nil s.text)
string_loop-Read quote (c ∷ w) tail (suc n) s m q r l ((low, high, other, unescaped), a) =
    let t = (next s).1 in
    let read = next-Read s (w ++ quote ∷ tail) (starts w a) r in
    let ih = string_loop-Read quote w tail n t (omega arith) q read.1.0 read.1.1 a in
    let rest : Read t w (quote ∷ tail) (string_loop n quote (next s)) =
      subst (Stopped quote w tail n t) (sym read.0) ih in
    let e₁ : (c == quote) ≡ false = ground arith in
    let e₂ : (c == b'\n' || is_negative c) ≡ false = ground arith in
    let e₃ : (c == b'\\') ≡ false = ground arith in
    rw (e₁, e₂, e₃, string_loop) (ground (arith, read, rest, append_assoc s.text (c ∷ []) w))
  where
    starts : (w : Text) → All (IsQuotable quote) w → StartsPlain (w ++ quote ∷ tail)
    starts [] a = q
    starts (c ∷ w) ((low, high, _, _), _) = (omega arith, omega arith)

abbrev pub in_quotes : ℕ → Text → Text
in_quotes quote w = quote ∷ w ++ quote ∷ []

starts_quoted :
    (quote : ℕ) (w tail : Text)
    → IsPlain quote
    → All (IsQuotable quote) w
    → StartsPlain (w ++ quote ∷ tail)
starts_quoted quote [] tail q a = q
starts_quoted quote (c ∷ w) tail q ((low, high, _, _), _) = (omega arith, omega arith)

pub scan_string-Read :
    (quote : ℕ) (w tail : Text) (s : Scanner)
    → IsPlain quote
    → s.rest ≡ w ++ quote ∷ tail
    → s.last_char ≡ quote ∷ []
    → All (IsQuotable quote) w
    → StartsPlain tail
    → ((scan_string quote s).0 ≡ ahead tail)
      × Read s (in_quotes quote w) tail (scan_string quote s).1
unfolding scan_string
scan_string-Read quote w tail s q r l a st =
    let t = (next s).1 in
    let start = next-Read s (w ++ quote ∷ tail) (starts_quoted quote w tail q a) r in
    let n = suc (suc (length s.rest)) in
    let ih =
      string_loop-Read quote w tail n t (omega (arith, ap length r, length-append w (quote ∷ tail)))
        q start.1.0 start.1.1 a in
    let body : Stopped quote w tail n t (next s).0 =
      subst (Stopped quote w tail n t) (sym start.0) ih in
    let end = next-Read (string_loop n quote (next s)) tail st body.0 in
    ground (
      arith,
      start,
      body,
      end,
      append_assoc s.text (quote ∷ []) w,
      append_assoc s.text (quote ∷ w) (quote ∷ []),
    )
