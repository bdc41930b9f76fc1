-- ===== src/Query/Parser/Steps.antt =====
-- What the rules of the grammar do with the tokens that they are given.
use xuandb.Prelude.{
  ℕ, true, ◌==◌, ◌<◌, refl, arith, if◌then◌else◌, [], ◌∷◌, ◌≡◌, All, ap, ◌∙◌, some,
}
use xuandb.Prelude.Text.{Text, codes}
use xuandb.Query.Run.{returned}
use xuandb.Query.Utf8.{runes}
use xuandb.Query.Utf8.RoundTrip.{runes-ascii}
use xuandb.Query.Scanner.{Scanner}
use xuandb.Query.Scanner.Quotes.{IsQuotable}
use xuandb.Query.Lexer.Token.{Token, Keyword, index, keyword, ident, val_str, end_token}
use xuandb.Query.Lexer.Lex.{lex}
use xuandb.Query.Ast.{Statement}
use xuandb.Query.Parser.{
  Grammar, Parser, ◌>>=◌, resume, some_token, token, as_ident, as_val_str, as_keyword, as_end,
  expect, finish, name, literal, pure, give_up, addr_port,
}

IsQuotable-ascii : (quote : ℕ) (w : Text) → All (IsQuotable quote) w → All (λ c. c < 128) w
IsQuotable-ascii quote [] a = tt
IsQuotable-ascii quote (c ∷ w) ((low, high, _, _), a) = (omega arith, IsQuotable-ascii quote w a)

runes-quotable : (quote : ℕ) (w : Text) → All (IsQuotable quote) w → runes w ≡ w
runes-quotable quote w a = runes-ascii w (IsQuotable-ascii quote w a)

module _ (g : Grammar) (s t : Scanner) where
  pub token_step {ℓ} :
      {B : Type ℓ} (f : Token → Parser B) (tok : Token)
      → lex g.tables s ≡ returned (tok, t)
      → (token g >>= f) s ≡ f tok t
  unfolding token
  token_step f tok e = ap (λ r. resume f (some_token r)) e

  pub expect_step {ℓ} :
      {B : Type ℓ} (f : Unit → Parser B) (k : Keyword)
      → lex g.tables s ≡ returned (keyword k, t)
      → (expect g k >>= f) s ≡ f tt t
  unfolding as_keyword
  expect_step f k e =
      let same : (index k == index k) ≡ true = ground arith in
      ap (resume f) (token_step (as_keyword g k) (keyword k) e) ∙ rw same refl

  pub name_step {ℓ} :
      {B : Type ℓ} (f : Text → Parser B) (w : Text)
      → lex g.tables s ≡ returned (ident w, t)
      → All (IsQuotable b'"') w
      → (name g >>= f) s ≡ f w t
  unfolding token as_ident
  name_step f w e a =
      ap (λ r. resume f (resume (λ tok. as_ident g tok >>= (λ n. pure (runes n))) (some_token r))) e
      ∙ ap (λ n. f n t) (runes-quotable b'"' w a)

  pub literal_step {ℓ} :
      {B : Type ℓ} (f : Text → Parser B) (w : Text)
      → lex g.tables s ≡ returned (val_str w, t)
      → All (IsQuotable b'\'') w
      → (literal g >>= f) s ≡ f w t
  unfolding token as_val_str
  literal_step f w e a =
      ap (λ r. resume f (resume (λ tok. as_val_str g tok >>= (λ n. pure (runes n))) (some_token r)))
        e
      ∙ ap (λ n. f n t) (runes-quotable b'\'' w a)

  pub finish_step :
      (stmt : Statement)
      → lex g.tables s ≡ returned (end_token, t)
      → finish g stmt s ≡ returned (some stmt, t)
  unfolding as_end
  finish_step stmt e = token_step (as_end g stmt) end_token e

  pub addr_port_step {ℓ} :
      {B : Type ℓ} (f : Text → Parser B) (a : Text)
      → lex g.tables s ≡ returned (val_str a, t)
      → All (IsQuotable b'\'') a
      → g.is_addr_port a ≡ true
      → (addr_port g >>= f) s ≡ f a t
  unfolding addr_port
  addr_port_step f a e quotable valid =
      let checked : Text → Parser Text =
        λ a. if g.is_addr_port a then pure a else give_up (codes "invalid network address") in
      ap (resume f) (literal_step checked a e quotable) ∙ rw valid refl
