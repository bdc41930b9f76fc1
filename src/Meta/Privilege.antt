-- ===== src/Meta/Privilege.antt =====
-- The privileges of pkg/meta/user.go: a bit set in a 64-bit `uint`, its text and its JSON form.
pub mod RoundTrip
use Prim.Native.Nat.{bit_and, bit_or}
use xuandb.Prelude.{
  ℕ, ◌^◌, ◌-◌, ◌≡◌, refl, Bool, true, false, not, ◌||◌, ◌&&◌, List, [], ◌∷◌, ◌++◌, Option, none,
  some, ◌==◌, ltb, if◌then◌else◌,
}
use xuandb.Prelude.Text.{Text, codes, text_eq}
use xuandb.Prelude.Unicode.{Unicode, to_upper}
use xuandb.Xerrors.{Error, other}

abbrev pub privilege_none : ℕ
privilege_none = 0

abbrev pub privilege_debug : ℕ
privilege_debug = 1

abbrev pub privilege_read : ℕ
privilege_read = 2

abbrev pub privilege_write : ℕ
privilege_write = 4

abbrev pub privilege_mask : ℕ
privilege_mask = 7

-- `math.MaxInt + 1`
abbrev pub privilege_admin : ℕ
privilege_admin = 2 ^ 63

-- `p & q == q`
unfoldable pub has : ℕ → ℕ → Bool
has p q = bit_and p q == q

-- `p &^ PrivilegeMask != 0`: a bit outside the mask is set.
unfoldable pub outside_mask : ℕ → Bool
outside_mask p = not (p - bit_and p privilege_mask == 0)

-- `strings.Trim(s, " \t")`
abbrev is_blank : ℕ → Bool
is_blank c = c == b' ' || c == b'\t'

pub trim_left : Text → Text
trim_left [] = []
trim_left (c ∷ s) = if is_blank c then trim_left s else c ∷ s

pub trim_right : Text → Text
trim_right [] = []
trim_right (c ∷ s) = elim (trim_right s) [
  | [] ↦ if is_blank c then [] else c ∷ []
  | d ∷ r ↦ c ∷ d ∷ r
]

abbrev trim : Text → Text
trim s = trim_right (trim_left s)

-- The pieces that `for len(str) > 0` cuts at the commas; `cur` is the piece so far.
pub pieces_from : Text → Text → List Text
pieces_from cur [] = cur ∷ []
pieces_from cur (c ∷ s) =
    let after : List Text = elim s [ [] ↦ [] | _ ↦ pieces_from [] s ] in
    let longer = pieces_from (cur ++ c ∷ []) s in if c == b',' then cur ∷ after else longer

pub pieces : Text → List Text
pieces [] = []
pieces (c ∷ s) = pieces_from [] (c ∷ s)

-- The switch on one piece: the bits that it adds, or `none` for an unknown word.
pub word_bits : Text → Option ℕ
word_bits w =
    if text_eq w [] || text_eq w (codes "NONE")
    then some privilege_none
    else if text_eq w (codes "DEBUG")
    then some privilege_debug
    else if text_eq w (codes "READ")
    then some privilege_read
    else if text_eq w (codes "WRITE")
    then some privilege_write
    else if text_eq w (codes "ADMIN")
    then some privilege_admin
    else none

pub data Parsed : Type 0 where
  parsed : ℕ → Parsed
  invalid : Error → Parsed

module _ (u : Unicode) where
  pub parse_pieces : ℕ → List Text → Parsed
  parse_pieces v [] = parsed v
  parse_pieces v (p ∷ ps) =
      let w = to_upper u (trim p) in
      elim (word_bits w) [
        | none ↦ invalid (other (codes "invalid privilege: " ++ w))
        | some bits ↦ parse_pieces (bit_or v bits) ps
      ]

  -- `(*Privilege).parse`, and so `UnmarshalText`
  pub parse : Text → Parsed
  parse s = parse_pieces privilege_none (pieces s)

-- `if p & bit == bit { append the word, behind a comma if it is not the first }`
unfoldable pub add_word : ℕ → ℕ → Text → Text → Text
add_word p bit word s =
    if has p bit then if not (text_eq s []) then s ++ (b',' ∷ word) else word else s

-- `Privilege.String`, and so `MarshalText`
unfoldable pub to_string : ℕ → Text
to_string p =
    if p == privilege_none
    then []
    else if p == privilege_admin
    then codes "ADMIN"
    else add_word p privilege_write (codes "WRITE")
        (add_word p privilege_read (codes "READ") (add_word p privilege_debug (codes "DEBUG") []))

-- A privilege that went through `MarshalJSON` and `UnmarshalJSON`.
pub via_json : Unicode → ℕ → ℕ
via_json u p = elim (parse u (to_string p)) [ parsed q ↦ q | invalid e ↦ p ]
