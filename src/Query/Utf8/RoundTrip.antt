-- ===== src/Query/Utf8/RoundTrip.antt =====
-- Decoding the first rune splits a text into its bytes and the rest.
use xuandb.Prelude.{
  ℕ, zero, suc, All, ap, ◌<◌, ◌≤◌, ◌≡◌, refl, arith, true, ltb, [], ◌∷◌, ◌++◌, length,
}
use xuandb.Prelude.Text.{Text}
use xuandb.Query.Utf8.{decode_two, decode_three, decode_four, decode_rune, runes_loop, runes}

decode_two-split : (b : ℕ) (s : Text) → (decode_two b s).bytes ++ (decode_two b s).rest ≡ b ∷ s
unfolding decode_two
decode_two-split b [] = refl
decode_two-split b (x ∷ s) = ground arith

decode_three-split :
    (b : ℕ) (s : Text) → (decode_three b s).bytes ++ (decode_three b s).rest ≡ b ∷ s
unfolding decode_three
decode_three-split b [] = refl
decode_three-split b (x ∷ []) = refl
decode_three-split b (x ∷ y ∷ s) = ground arith

decode_four-split : (b : ℕ) (s : Text) → (decode_four b s).bytes ++ (decode_four b s).rest ≡ b ∷ s
unfolding decode_four
decode_four-split b [] = refl
decode_four-split b (x ∷ []) = refl
decode_four-split b (x ∷ y ∷ []) = refl
decode_four-split b (x ∷ y ∷ z ∷ s) = ground arith

-- No byte is lost or made.
pub decode_rune-split :
    (b : ℕ) (s : Text) → (decode_rune b s).bytes ++ (decode_rune b s).rest ≡ b ∷ s
unfolding decode_rune
decode_rune-split b s =
    ground (arith, decode_two-split b s, decode_three-split b s, decode_four-split b s)

runes_loop-ascii : (n : ℕ) (w : Text) → length w ≤ n → All (λ c. c < 128) w → runes_loop n w ≡ w
unfolding runes_loop decode_rune
runes_loop-ascii zero [] h a = refl
runes_loop-ascii zero (c ∷ w) h a = absurd (omega arith)
runes_loop-ascii (suc n) [] h a = refl
runes_loop-ascii (suc n) (c ∷ w) h (low, a) =
    let e : ltb c 128 ≡ true = ground arith in
    rw e (ap (λ t. c ∷ t) (runes_loop-ascii n w (omega arith) a))

-- An ASCII text is its own runes.
pub runes-ascii : (w : Text) → All (λ c. c < 128) w → runes w ≡ w
unfolding runes
runes-ascii w a = runes_loop-ascii (length w) w (omega arith) a
