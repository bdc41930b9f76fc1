-- ===== src/Meta/Privilege/RoundTrip.antt =====
-- The text of a privilege and what reading it gives back.
use Prim.Native.Nat.{bit_and}
use xuandb.Prelude.{
  ℕ, zero, suc, ◌*◌, ◌/◌, ◌%◌, ◌<◌, ◌≡◌, ◌≢◌, ◌⊎◌, inl, inr, refl, sym, ap, ◌∙◌, arith, Bool-cases,
  false, ◌==◌, if◌then◌else◌, [],
}
use xuandb.Prelude.Bits.{bit_and-halves, bit_and-zero}
use xuandb.Prelude.Text.{Text, codes, text_eq}
use xuandb.Prelude.Unicode.{Unicode, to_upper}
use xuandb.Meta.Privilege.{
  has, outside_mask, trim_left, trim_right, pieces_from, pieces, word_bits, parsed, parse_pieces,
  parse, add_word, to_string, via_json, privilege_debug, privilege_read, privilege_write,
  privilege_admin, privilege_mask,
}

bit_and-seven : (p : ℕ) → bit_and p 7 ≡ p % 8
bit_and-seven p = omega (
  arith,
  bit_and-halves p 7,
  bit_and-halves (p / 2) 3,
  bit_and-halves (p / 2 / 2) 1,
  bit_and-zero (p / 2 / 2 / 2),
)

-- A privilege of the mask's bits, or the admin privilege: what the create handler lets through.
abbrev pub IsValid : ℕ → Type 0
IsValid p = (p ≡ privilege_admin) ⊎ (outside_mask p ≡ false)

pub below_eight : (p : ℕ) → outside_mask p ≡ false → p < 8
unfolding outside_mask
below_eight p h = ground (arith, bit_and-seven p)

parse-to_string_small : (u : Unicode) (p : ℕ) → p < 8 → parse u (to_string p) ≡ parsed p
unfolding parse parse_pieces pieces pieces_from trim_left trim_right word_bits text_eq to_upper
    to_string add_word has
parse-to_string_small u zero h = refl
parse-to_string_small u (suc zero) h = refl
parse-to_string_small u (suc (suc zero)) h = refl
parse-to_string_small u (suc (suc (suc zero))) h = refl
parse-to_string_small u (suc (suc (suc (suc zero)))) h = refl
parse-to_string_small u (suc (suc (suc (suc (suc zero))))) h = refl
parse-to_string_small u (suc (suc (suc (suc (suc (suc zero)))))) h = refl
parse-to_string_small u (suc (suc (suc (suc (suc (suc (suc zero))))))) h = refl
parse-to_string_small u (suc (suc (suc (suc (suc (suc (suc (suc n)))))))) h = absurd (omega arith)

parse-to_string_admin : (u : Unicode) → parse u (to_string privilege_admin) ≡ parsed privilege_admin
unfolding parse parse_pieces pieces pieces_from trim_left trim_right word_bits text_eq to_upper
    to_string add_word has
parse-to_string_admin u = refl

-- Every valid privilege is read back from its text.
pub parse-to_string : (u : Unicode) (p : ℕ) → IsValid p → parse u (to_string p) ≡ parsed p
parse-to_string u p (inl e) = rw e (parse-to_string_admin u)
parse-to_string u p (inr m) = parse-to_string_small u p (below_eight p m)

bit_and-one : (p : ℕ) → bit_and p 1 ≡ p % 2
bit_and-one p = omega (arith, bit_and-halves p 1, bit_and-zero (p / 2))

bit_and-two : (p : ℕ) → bit_and p 2 ≡ p / 2 % 2 * 2
bit_and-two p = omega (arith, bit_and-halves p 2, bit_and-one (p / 2))

bit_and-four : (p : ℕ) → bit_and p 4 ≡ p / 4 % 2 * 4
bit_and-four p = omega (arith, bit_and-halves p 4, bit_and-two (p / 2))

-- The three words depend on the three low bits only.
words : ℕ → Text
words p =
    add_word p privilege_write (codes "WRITE")
      (add_word p privilege_read (codes "READ") (add_word p privilege_debug (codes "DEBUG") []))

has-low :
    (p : ℕ)
    → (has p privilege_debug ≡ has (p % 8) privilege_debug)
      × (has p privilege_read ≡ has (p % 8) privilege_read)
      × (has p privilege_write ≡ has (p % 8) privilege_write)
unfolding has
has-low p =
    let q = p % 8 in
    (
      ap (λ x. x == 1) (omega (arith, bit_and-one p, bit_and-one q)),
      ap (λ x. x == 2) (omega (arith, bit_and-two p, bit_and-two q)),
      ap (λ x. x == 4) (omega (arith, bit_and-four p, bit_and-four q)),
    )

words-low : (p : ℕ) → words p ≡ words (p % 8)
unfolding words add_word
words-low p = let (d, r, w) = has-low p in simp (d, r, w)

to_string-words : (p : ℕ) → p ≢ privilege_admin → to_string p ≡ words p
to_string-words zero h = unfold to_string words add_word has in refl
to_string-words (suc p) h = unfold to_string words in ground arith

parse-to_string_low :
    (u : Unicode) (p : ℕ) → p ≢ privilege_admin → parse u (to_string p) ≡ parsed (p % 8)
parse-to_string_low u p h =
    let same : to_string p ≡ to_string (p % 8) =
      to_string-words p h ∙ words-low p ∙ sym (to_string-words (p % 8) (omega arith)) in
    rw same (parse-to_string_small u (p % 8) (omega arith))

via_json-parsed : (u : Unicode) (p q : ℕ) → parse u (to_string p) ≡ parsed q → via_json u p ≡ q
unfolding via_json
via_json-parsed u p q h = rw (h, via_json)

-- JSON keeps the bits of the mask, and the admin privilege only where it stands alone.
pub via_json_lem :
    (u : Unicode) (p : ℕ)
    → via_json u p ≡ (if p == privilege_admin then privilege_admin else bit_and p privilege_mask)
via_json_lem u p = elim (Bool-cases (p == privilege_admin)) [
  | inl admin ↦
      let e : p ≡ privilege_admin = ground arith in
      rw admin (rw e (via_json-parsed u privilege_admin privilege_admin (parse-to_string_admin u)))
  | inr less ↦
      let ne : p ≢ privilege_admin = ground arith in
      rw less (via_json-parsed u p (p % 8) (parse-to_string_low u p ne) ∙ sym (bit_and-seven p))
]

-- So a valid privilege survives.
pub via_json_valid : (u : Unicode) (p : ℕ) → IsValid p → via_json u p ≡ p
via_json_valid u p h = via_json-parsed u p p (parse-to_string u p h)

pub via_json-IsValid : (u : Unicode) (p : ℕ) → IsValid (via_json u p)
unfolding outside_mask
via_json-IsValid u p = elim (Bool-cases (p == privilege_admin)) [
  | inl admin ↦ inl (via_json_lem u p ∙ rw admin)
  | inr less ↦
      let low : via_json u p ≡ p % 8 = via_json_lem u p ∙ rw less (bit_and-seven p) in
      inr (ground (arith, low, bit_and-seven (via_json u p)))
]

pub via_json_idem : (u : Unicode) (p : ℕ) → via_json u (via_json u p) ≡ via_json u p
via_json_idem u p = via_json_valid u (via_json u p) (via_json-IsValid u p)
