-- ===== src/Prelude/Sort.antt =====
-- `sort.Slice` by a string key: the order of strings, and a sort whose result is in order and has
-- the same items. Where keys are distinct no other result is possible.
use mathlib.Core.List.{Perm}
use mathlib.Core.List.Perm
use xuandb.Prelude.{
  ◌≡◌, refl, arith, Bool, true, false, List, [], ◌∷◌, All, All-map, ltb, ◌==◌, if◌then◌else◌,
  Bool-cases, inl, inr,
}
use xuandb.Prelude.Text.{Text}

-- `a < b` on strings.
unfoldable pub text_less : Text → Text → Bool
text_less a [] = false
text_less [] (y ∷ b) = true
text_less (x ∷ a) (y ∷ b) = if x == y then text_less a b else ltb x y

pub text_less-asymm : (a b : Text) → text_less a b ≡ true → text_less b a ≡ false
unfolding text_less
text_less-asymm [] [] h = refl
text_less-asymm [] (y ∷ b) h = refl
text_less-asymm (x ∷ a) [] h = ground arith
text_less-asymm (x ∷ a) (y ∷ b) h = ground (arith, text_less-asymm a b)

-- "not less" is transitive.
pub text_less_trans :
    (a b c : Text) → text_less b a ≡ false → text_less c b ≡ false → text_less c a ≡ false
unfolding text_less
text_less_trans [] b c h k = ground arith
text_less_trans (x ∷ a) [] c h k = ground arith
text_less_trans (x ∷ a) (y ∷ b) [] h k = ground arith
text_less_trans (x ∷ a) (y ∷ b) (z ∷ c) h k = ground (arith, text_less_trans a b c)

module _ {A : Type 0} (key : A → Text) where
  unfoldable pub insert_sorted : A → List A → List A
  insert_sorted a [] = a ∷ []
  insert_sorted a (b ∷ xs) =
      let later = b ∷ insert_sorted a xs in if text_less (key b) (key a) then later else a ∷ b ∷ xs

  unfoldable pub sort : List A → List A
  sort [] = []
  sort (a ∷ xs) = insert_sorted a (sort xs)

  -- No later item has a smaller key.
  abbrev pub IsSorted : List A → Type 0
  IsSorted [] = Unit
  IsSorted (a ∷ xs) = All (λ b. text_less (key b) (key a) ≡ false) xs × IsSorted xs

  insert_sorted-All :
      (P : A → Type 0) (a : A) (xs : List A) → P a → All P xs → All P (insert_sorted a xs)
  unfolding insert_sorted
  insert_sorted-All P a [] p h = (p, tt)
  insert_sorted-All P a (b ∷ xs) p h = ground (arith, insert_sorted-All P a xs)

  pub sort-All : (P : A → Type 0) (xs : List A) → All P xs → All P (sort xs)
  unfolding sort
  sort-All P [] h = tt
  sort-All P (a ∷ xs) (p, h) = insert_sorted-All P a (sort xs) p (sort-All P xs h)

  insert_sorted-IsSorted : (a : A) (xs : List A) → IsSorted xs → IsSorted (insert_sorted a xs)
  unfolding insert_sorted
  insert_sorted-IsSorted a [] h = (tt, tt)
  insert_sorted-IsSorted a (b ∷ xs) (low, h) = elim (Bool-cases (text_less (key b) (key a))) [
    | inl less ↦ rw less (
      insert_sorted-All (λ c. text_less (key c) (key b) ≡ false) a xs
          (text_less-asymm (key b) (key a) less) low,
      insert_sorted-IsSorted a xs h,
    )
    | inr more ↦ rw more (
      (more, All-map _ _ xs (λ c k. text_less_trans (key a) (key b) (key c) more k) low),
      (low, h),
    )
  ]

  pub sort-IsSorted : (xs : List A) → IsSorted (sort xs)
  unfolding sort
  sort-IsSorted [] = tt
  sort-IsSorted (a ∷ xs) = insert_sorted-IsSorted a (sort xs) (sort-IsSorted xs)

  insert_sorted-perm : (a : A) (xs : List A) → Perm (insert_sorted a xs) (a ∷ xs)
  unfolding insert_sorted
  insert_sorted-perm a [] = Perm.refl _
  insert_sorted-perm a (b ∷ xs) = elim (Bool-cases (text_less (key b) (key a))) [
    | inl less ↦ rw less (Perm.trans (Perm.cons b (insert_sorted-perm a xs)) (Perm.swap a b xs))
    | inr more ↦ rw more (Perm.refl _)
  ]

  pub sort-perm : (xs : List A) → Perm (sort xs) xs
  unfolding sort
  sort-perm [] = Perm.refl _
  sort-perm (a ∷ xs) = Perm.trans (insert_sorted-perm a (sort xs)) (Perm.cons a (sort-perm xs))
