-- ===== src/Query/Scanner/Ahead.antt =====
-- The look-ahead of the scanner on a source that is known.
use mathlib.Core.Path.{subst}
use xuandb.Prelude.{
  ℕ, ◌≡◌, ◌≢◌, refl, arith, false, ◌==◌, [], ◌∷◌, ◌∙◌, ap, sym, some, none, inl, inr, Bool-cases,
  Option,
}
use xuandb.Prelude.Text.{Text}
use xuandb.Query.Scanner.{Scanner, next, peek, init, first_char, set_ch}
use xuandb.Query.Scanner.Reading.{ahead, first, behind, StartsPlain, next-Read}

-- The scanner has `input` before it: its look-ahead is the first byte.
abbrev pub At : Scanner → Text → Type 0
At s input =
    ((peek s).0 ≡ ahead input)
    × ((peek s).1.rest ≡ behind input)
    × ((peek s).1.last_char ≡ first input)
    × ((peek s).1.reports ≡ s.reports)

-- The scanner of a source stands before it.
pub init-At : (input : Text) → StartsPlain input → At (init input) input
unfolding init peek first_char set_ch
init-At input st =
    let s = init input in
    let read = next-Read s input st refl in
    let e : ((next s).0 == 65279) ≡ false = elim (Bool-cases ((next s).0 == 65279)) [
      | inl h ↦ absurd (starts input st (ground (arith, read, h)))
      | inr h ↦ h
    ] in
    ground (arith, read, e)
  where
    starts : (input : Text) → StartsPlain input → ahead input ≢ 65279
    starts [] st = λ e. absurd (omega (arith, e))
    starts (c ∷ r) (low, high) = λ e. absurd (omega (arith, e))

abbrev peeked : Scanner → Option ℕ → ℕ × Scanner
peeked s o = elim o [ some ch ↦ (ch, s) | none ↦ set_ch (first_char s) ]

peek-some : (s : Scanner) (c : ℕ) → s.ch ≡ some c → peek s ≡ (c, s)
unfolding peek
peek-some s c e = ap (peeked s) e

peek-none : (s : Scanner) → s.ch ≡ none → peek s ≡ set_ch (first_char s)
unfolding peek
peek-none s e = ap (peeked s) e

abbrev Known : Scanner → ℕ × Scanner → Type 0
Known s (ch, t) = t.ch ≡ some ch

peek-Known : (s : Scanner) → Known s (peek s)
unfolding set_ch
peek-Known s = go s.ch refl
  where
    go : (o : Option ℕ) → s.ch ≡ o → Known s (peek s)
    go (some c) e = subst (Known s) (sym (peek-some s c e)) e
    go none e = subst (Known s) (sym (peek-none s e)) refl

-- A look-ahead that is there stays.
pub peek-At :
    (s : Scanner) (input : Text) → At s input → At (peek s).1 input × ((peek s).0 ≡ ahead input)
peek-At s input (e, r, l, k) =
    let again : peek (peek s).1 ≡ ((peek s).0, (peek s).1) =
      peek-some (peek s).1 (peek s).0 (peek-Known s) in
    (
      (
        (ap (λ p. p.0) again ∙ e),
        (ap (λ p. p.1.rest) again ∙ r),
        (ap (λ p. p.1.last_char) again ∙ l),
        (ap (λ p. p.1.reports) again),
      ),
      e,
    )
