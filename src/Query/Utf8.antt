-- ===== src/Query/Utf8.antt =====
-- What pkg/query/parser uses of package unicode/utf8: the first rune of a text of bytes.
pub mod RoundTrip
use xuandb.Prelude.{
  ℕ, zero, suc, length, ◌==◌, ◌+◌, ◌-◌, ◌*◌, Bool, true, false, ◌&&◌, ltb, leb, if◌then◌else◌, [],
  ◌∷◌,
}
use xuandb.Prelude.Text.{Text}
use xuandb.Query.Lexer.{rune_error}

-- A rune, its bytes, the bytes behind it, and whether the encoding is invalid: then it is the error
-- rune, and has one byte.
pub record Decoded : Type 0 where
  pub rune : ℕ
  pub bytes : Text
  pub rest : Text
  pub invalid : Bool

abbrev pub between : ℕ → ℕ → ℕ → Bool
between a b x = leb a x && leb x b

abbrev pub continues : ℕ → Bool
continues x = between 128 191 x

abbrev pub bad_rune : ℕ → Text → Decoded
bad_rune b s = record { rune = rune_error; bytes = b ∷ []; rest = s; invalid = true }

abbrev pub good_rune : ℕ → Text → Text → Decoded
good_rune r bytes s = record { rune = r; bytes = bytes; rest = s; invalid = false }

-- The second byte of a rune of three or of four bytes: no overlong form, no surrogate, no rune
-- beyond the last one.
abbrev pub second_of_three : ℕ → ℕ → Bool
second_of_three b x =
    if b == 224 then between 160 191 x else if b == 237 then between 128 159 x else continues x

abbrev pub second_of_four : ℕ → ℕ → Bool
second_of_four b x =
    if b == 240 then between 144 191 x else if b == 244 then between 128 143 x else continues x

unfoldable pub decode_two : ℕ → Text → Decoded
decode_two b [] = bad_rune b []
decode_two b (x ∷ s) =
    if continues x
    then good_rune ((b - 192) * 64 + (x - 128)) (b ∷ x ∷ []) s
    else bad_rune b (x ∷ s)

unfoldable pub decode_three : ℕ → Text → Decoded
decode_three b [] = bad_rune b []
decode_three b (x ∷ []) = bad_rune b (x ∷ [])
decode_three b (x ∷ y ∷ s) =
    if second_of_three b x && continues y
    then good_rune ((b - 224) * 4096 + (x - 128) * 64 + (y - 128)) (b ∷ x ∷ y ∷ []) s
    else bad_rune b (x ∷ y ∷ s)

unfoldable pub decode_four : ℕ → Text → Decoded
decode_four b [] = bad_rune b []
decode_four b (x ∷ []) = bad_rune b (x ∷ [])
decode_four b (x ∷ y ∷ []) = bad_rune b (x ∷ y ∷ [])
decode_four b (x ∷ y ∷ z ∷ s) =
    if second_of_four b x && continues y && continues z
    then good_rune ((b - 240) * 262144 + (x - 128) * 4096 + (y - 128) * 64 + (z - 128))
        (b ∷ x ∷ y ∷ z ∷ []) s
    else bad_rune b (x ∷ y ∷ z ∷ s)

-- `utf8.DecodeRune` on the text `b ∷ s`.
unfoldable pub decode_rune : ℕ → Text → Decoded
decode_rune b s =
    if ltb b 128
    then good_rune b (b ∷ []) s
    else if between 194 223 b
    then decode_two b s
    else if between 224 239 b
    then decode_three b s
    else if between 240 244 b
    then decode_four b s
    else bad_rune b s

-- The runes of a text; each round reads at least one byte.
unfoldable pub runes_loop : ℕ → Text → Text
runes_loop zero s = []
runes_loop (suc fuel) [] = []
runes_loop (suc fuel) (b ∷ s) = (decode_rune b s).rune ∷ runes_loop fuel (decode_rune b s).rest

unfoldable pub runes : Text → Text
runes s = runes_loop (length s) s
