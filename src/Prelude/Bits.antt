-- ===== src/Prelude/Bits.antt =====
-- Sets of bits: what the native `bit_and` and `bit_or` do to each binary digit.
use Prim.Native.Nat.{min, max, digits, bit_and, bit_or, bit_and-bitwise, bit_or-bitwise}
use xuandb.Prelude.{
  ℕ, zero, suc, ◌+◌, ◌*◌, ◌/◌, ◌%◌, ◌≤◌, ◌≡◌, ◌↔◌, ◌⊎◌, inl, inr, refl, sym, ap, ◌∙◌, arith,
}

module _ (z : ℕ → ℕ) (f : ℕ → ℕ → ℕ) where
  no_digit : (n b : ℕ) → digits z f n zero b ≡ z b
  no_digit zero b = refl
  no_digit (suc n) b = refl

  -- The count of digits to go does not matter once it is large enough.
  enough : (n m a b : ℕ) → a ≤ n → a ≤ m → digits z f n a b ≡ digits z f m a b
  enough n m zero b p q = no_digit n b ∙ sym (no_digit m b)
  enough zero m (suc a) b p q = absurd (omega arith)
  enough (suc n) zero (suc a) b p q = absurd (omega arith)
  enough (suc n) (suc m) (suc a) b p q =
      ap (λ t. t * 2 + f (suc a % 2) (b % 2))
        (enough n m (suc a / 2) (b / 2) (omega arith) (omega arith))

  lowest :
      (a b : ℕ)
      → digits z f (suc a) (suc a) b
        ≡ digits z f (suc a / 2) (suc a / 2) (b / 2) * 2 + f (suc a % 2) (b % 2)
  lowest a b =
      ap (λ t. t * 2 + f (suc a % 2) (b % 2))
        (enough a (suc a / 2) (suc a / 2) (b / 2) (omega arith) (omega arith))

pub bit_and-halves : (a b : ℕ) → bit_and a b ≡ bit_and (a / 2) (b / 2) * 2 + min (a % 2) (b % 2)
bit_and-halves zero b = simp bit_and-bitwise (omega arith)
bit_and-halves (suc a) b = simp bit_and-bitwise (lowest (λ _. 0) min a b)

pub bit_or-halves : (a b : ℕ) → bit_or a b ≡ bit_or (a / 2) (b / 2) * 2 + max (a % 2) (b % 2)
bit_or-halves zero b = simp bit_or-bitwise (omega arith)
bit_or-halves (suc a) b = simp bit_or-bitwise (lowest (λ y. y) max a b)

-- The i-th binary digit.
abbrev pub bit : ℕ → ℕ → ℕ
bit n zero = n % 2
bit n (suc i) = bit (n / 2) i

pub zero-bit : (i : ℕ) → bit 0 i ≡ 0
zero-bit zero = refl
zero-bit (suc i) = zero-bit i

pub bit_or-bit : (a b i : ℕ) → bit (bit_or a b) i ≡ max (bit a i) (bit b i)
bit_or-bit a b zero = omega (arith, bit_or-halves a b)
bit_or-bit a b (suc i) =
    let e : bit_or a b / 2 ≡ bit_or (a / 2) (b / 2) = omega (arith, bit_or-halves a b) in
    ap (λ n. bit n i) e ∙ bit_or-bit (a / 2) (b / 2) i

-- Every bit of `q` is one of `p`.
abbrev pub Includes : ℕ → ℕ → Type 0
Includes p q = (i : ℕ) → bit q i ≡ 1 → bit p i ≡ 1

Includes-below : (n p q : ℕ) → q ≤ n → bit_and p q ≡ q → Includes p q
Includes-below n p q h e zero b = omega (arith, bit_and-halves p q)
Includes-below zero p zero h e (suc i) b = absurd (omega (arith, zero-bit i))
Includes-below (suc n) p zero h e (suc i) b = absurd (omega (arith, zero-bit i))
Includes-below zero p (suc q) h e (suc i) b = absurd (omega arith)
Includes-below (suc n) p (suc q) h e (suc i) b =
    Includes-below n (p / 2) (suc q / 2) (omega arith) (omega (arith, bit_and-halves p (suc q))) i b

none_in_common : (n p : ℕ) → p ≤ n → bit_and p 0 ≡ 0
none_in_common n zero h = refl
none_in_common zero (suc p) h = absurd (omega arith)
none_in_common (suc n) (suc p) h =
    omega (arith, bit_and-halves (suc p) 0, none_in_common n (suc p / 2) (omega arith))

pub bit_and-zero : (p : ℕ) → bit_and p 0 ≡ 0
bit_and-zero p = none_in_common p p (omega arith)

parity : (n : ℕ) → (n % 2 ≡ 0) ⊎ (n % 2 ≡ 1)
parity n = ground arith

of_Includes : (n p q : ℕ) → q ≤ n → Includes p q → bit_and p q ≡ q
of_Includes zero p zero h inc = bit_and-zero p
of_Includes (suc n) p zero h inc = bit_and-zero p
of_Includes zero p (suc q) h inc = absurd (omega arith)
of_Includes (suc n) p (suc q) h inc =
    let rest = of_Includes n (p / 2) (suc q / 2) (omega arith) (λ i. inc (suc i)) in
    elim (parity (suc q)) [
      | inl even ↦ omega (arith, bit_and-halves p (suc q), rest)
      | inr odd ↦ omega (arith, bit_and-halves p (suc q), rest, inc 0 odd)
    ]

pub bit_and_iff : (p q : ℕ) → (bit_and p q ≡ q) ↔ Includes p q
bit_and_iff p q = (Includes-below q p q (omega arith), of_Includes q p q (omega arith))
