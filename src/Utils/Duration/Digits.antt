-- ===== src/Utils/Duration/Digits.antt =====
-- Writing a number in decimal and scanning it back, and where the digits and unit loops stop.
use native.Mathlib.Nat.{pow-suc}
use xuandb.Prelude.{
  ℕ, zero, suc, ◌+◌, ◌/◌, ◌%◌, ◌^◌, ◌≤◌, ◌<◌, true, Bool, [], ◌∷◌, ◌++◌, ◌≡◌, ◌≢◌, refl, arith, ltb,
  ◌||◌, length,
}
use xuandb.Prelude.Text.{Text}
use xuandb.Utils.Duration.{limit, scan_digits, scanned, span_unit, emit}

-- The text is empty or begins with a decimal digit.
abbrev pub StartsDigit : Text → Type 0
StartsDigit [] = Unit
StartsDigit (c ∷ s) = (b'0' ≤ c) × (c ≤ b'9')

-- All are bytes, and none is a decimal digit: what the unit loop reads.
abbrev pub NoDigit : Text → Type 0
NoDigit [] = Unit
NoDigit (c ∷ s) = (c < 256) × ((ltb c b'0' || ltb b'9' c) ≡ true) × NoDigit s

scan_last :
    (n : ℕ) (out : Text) (b : Bool)
    → n + 10 ≤ limit
    → scan_digits ((b'0' + n % 10) ∷ out) (n / 10) b ≡ scan_digits out n true
unfolding scan_digits
scan_last n out b h = ground arith

scan_only :
    (n : ℕ) (out : Text) (b : Bool)
    → n < 10
    → scan_digits ((b'0' + n) ∷ out) 0 b ≡ scan_digits out n true
unfolding scan_digits
scan_only n out b h = ground arith

pub scan_digits-emit :
    (f n : ℕ) (out : Text) (b : Bool)
    → n < 10 ^ suc f
    → n + 10 ≤ limit
    → scan_digits (emit (suc f) n out) 0 b ≡ scan_digits out n true
unfolding emit
scan_digits-emit zero n out b h k = ground (arith, scan_only n out b)
scan_digits-emit (suc f) n out b h k =
    let out' = (b'0' + n % 10) ∷ out in
    ground (
      arith,
      scan_only n out b,
      scan_last n out true k,
      pow-suc 10 (suc f),
      scan_digits-emit f (n / 10) out' b,
    )

pub emit-StartsDigit : (f n : ℕ) (out : Text) → StartsDigit (emit (suc f) n out)
unfolding emit
emit-StartsDigit zero n out = ground arith
emit-StartsDigit (suc f) n out = ground (arith, emit-StartsDigit f (n / 10) ((b'0' + n % 10) ∷ out))

pub length-emit : (f n : ℕ) (out : Text) → length out < length (emit (suc f) n out)
unfolding emit
length-emit zero n out = ground arith
length-emit (suc f) n out = ground (arith, length-emit f (n / 10) ((b'0' + n % 10) ∷ out))

pub span_unit_lem :
    (u rest : Text) → NoDigit u → StartsDigit rest → span_unit (u ++ rest) ≡ (u, rest)
unfolding span_unit
span_unit_lem [] [] h k = refl
span_unit_lem [] (c ∷ rest) h k = ground arith
span_unit_lem (c ∷ u) rest h k = ground (arith, span_unit_lem u rest)

pub scan_digits_stop :
    (u rest : Text) (v : ℕ) (b : Bool)
    → NoDigit u
    → u ≢ []
    → scan_digits (u ++ rest) v b ≡ scanned v b (u ++ rest)
unfolding scan_digits
scan_digits_stop [] rest v b h k = absurd (k refl)
scan_digits_stop (c ∷ u) rest v b h k = ground arith
