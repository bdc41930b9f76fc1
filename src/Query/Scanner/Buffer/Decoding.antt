-- ===== src/Query/Scanner/Buffer/Decoding.antt =====
-- A rune that is full in the buffer does not depend on the bytes that are not read yet.
use xuandb.Prelude.{ℕ, ◌≡◌, refl, arith, true, false, not, ◌&&◌, [], ◌∷◌, ◌++◌}
use xuandb.Prelude.Text.{Text}
use xuandb.Query.Utf8.{
  Decoded, decode_rune, continues, second_of_three, second_of_four, decode_two, decode_three,
  decode_four,
}
use xuandb.Query.Scanner.Buffer.{full_rune, needs_more}

abbrev with_more : Text → Decoded → Decoded
with_more u d = record d { rest = d.rest ++ u }

abbrev Stable : ℕ → Text → Text → Type 0
Stable b r u = decode_rune b (r ++ u) ≡ with_more u (decode_rune b r)

two_stable : (b x : ℕ) (r u : Text) → decode_two b (x ∷ r ++ u) ≡ with_more u (decode_two b (x ∷ r))
unfolding decode_two
two_stable b x r u = ground arith

-- With a second byte that fits none, or with a third.
three_broken :
    (b x : ℕ) (u : Text)
    → not (second_of_three b x) ≡ true
    → decode_three b (x ∷ u) ≡ with_more u (decode_three b (x ∷ []))
unfolding decode_three
three_broken b x [] h = refl
three_broken b x (y ∷ u) h = let e : second_of_three b x ≡ false = ground (arith, h) in rw e refl

three_full :
    (b x y : ℕ) (r u : Text)
    → decode_three b (x ∷ y ∷ r ++ u) ≡ with_more u (decode_three b (x ∷ y ∷ r))
unfolding decode_three
three_full b x y r u = ground arith

four_broken :
    (b x : ℕ) (u : Text)
    → not (second_of_four b x) ≡ true
    → decode_four b (x ∷ u) ≡ with_more u (decode_four b (x ∷ []))
unfolding decode_four
four_broken b x [] h = refl
four_broken b x (y ∷ []) h = refl
four_broken b x (y ∷ z ∷ u) h = let e : second_of_four b x ≡ false = ground (arith, h) in rw e refl

four_stopped :
    (b x y : ℕ) (u : Text)
    → not (second_of_four b x && continues y) ≡ true
    → decode_four b (x ∷ y ∷ u) ≡ with_more u (decode_four b (x ∷ y ∷ []))
unfolding decode_four
four_stopped b x y [] h = refl
four_stopped b x y (z ∷ u) h =
    let e : (second_of_four b x && continues y && continues z) ≡ false = ground (arith, h) in
    rw e refl

four_full :
    (b x y z : ℕ) (r u : Text)
    → decode_four b (x ∷ y ∷ z ∷ r ++ u) ≡ with_more u (decode_four b (x ∷ y ∷ z ∷ r))
unfolding decode_four
four_full b x y z r u = ground arith

pub decode-Stable : (b : ℕ) (r u : Text) → needs_more (b ∷ r) ≡ false → Stable b r u
unfolding decode_rune full_rune
decode-Stable b [] u h = ground (arith, h)
decode-Stable b (x ∷ []) u h =
    ground (arith, two_stable b x [] u, three_broken b x u, four_broken b x u)
decode-Stable b (x ∷ y ∷ []) u h =
    ground (arith, two_stable b x (y ∷ []) u, three_full b x y [] u, four_stopped b x y u)
decode-Stable b (x ∷ y ∷ z ∷ r) u h =
    ground (arith, two_stable b x (y ∷ z ∷ r) u, three_full b x y (z ∷ r) u, four_full b x y z r u)
