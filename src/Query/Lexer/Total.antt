-- ===== src/Query/Lexer/Total.antt =====
-- The loop of `unescape` ends within one round for each byte.
use xuandb.Prelude.{
  ℕ, zero, suc, ◌+◌, ◌*◌, ◌<◌, ◌≤◌, ◌≡◌, refl, arith, Bool, true, false, Bool-cases, ◌==◌, ◌⊎◌, inl,
  inr, [], ◌∷◌, length,
}
use xuandb.Prelude.Text.{Text}
use xuandb.Query.Lexer.{
  digit_val, decode_loop, decode_digits, unescape_rune, Unescaped, unescaped, quote_inside,
  out_of_range, out_of_fuel, prepend, read_rune, is_last, unescape_loop, unescape,
}

decode_loop-length :
    (base n val : ℕ) (moved : Bool) (str : Text)
    → length (decode_loop base n val moved str).1 ≤ length str
unfolding decode_loop
decode_loop-length base zero val moved str = omega arith
decode_loop-length base (suc n) val moved [] = omega arith
decode_loop-length base (suc n) val moved (c ∷ str) =
    ground (arith, decode_loop-length base n (val * base + digit_val c) true str)

decode_digits-length : (str : Text) (base n : ℕ) → length (decode_digits str base n).1 ≤ length str
unfolding decode_digits
decode_digits-length str base n = decode_loop-length base n 0 false str

unescape_rune-length : (quote : ℕ) (s : Text) → length (unescape_rune quote s).1 ≤ length s
unfolding unescape_rune
unescape_rune-length quote [] = omega arith
unescape_rune-length quote (c ∷ s) = ground (
  arith,
  decode_digits-length (c ∷ s) 8 3,
  decode_digits-length s 16 2,
  decode_digits-length s 16 4,
  decode_digits-length s 16 8,
)

read_rune-length : (quote c : ℕ) (s : Text) → length (read_rune quote c s).1 ≤ length s
unfolding read_rune
read_rune-length quote c s = ground (arith, unescape_rune-length quote s)

-- The loop returns a text, or panics about a quote.
abbrev IsEnded : Unescaped → Type 0
IsEnded (unescaped t) = Unit
IsEnded quote_inside = Unit
IsEnded out_of_range = ⊥
IsEnded out_of_fuel = ⊥

prepend-IsEnded : (t : Text) (r : Unescaped) → IsEnded r → IsEnded (prepend t r)
unfolding prepend
prepend-IsEnded t (unescaped s) h = tt
prepend-IsEnded t quote_inside h = tt
prepend-IsEnded t out_of_range h = h
prepend-IsEnded t out_of_fuel h = h

unescape_loop-IsEnded :
    (fuel quote : ℕ) (str : Text) → length str < fuel → IsEnded (unescape_loop fuel quote str)
unfolding unescape_loop
unescape_loop-IsEnded zero quote str h = absurd (omega arith)
unescape_loop-IsEnded (suc fuel) quote [] h = tt
unescape_loop-IsEnded (suc fuel) quote (c ∷ s) h =
    let r = read_rune quote c s in
    let rest = unescape_loop-IsEnded fuel quote r.1 (omega (arith, read_rune-length quote c s)) in
    elim (Bool-cases (c == quote)) [
      | inl e ↦ elim (Bool-cases (is_last s)) [ inl f ↦ rw (e, f) tt | inr f ↦ rw (e, f) tt ]
      | inr e ↦ rw e (prepend-IsEnded r.0 (unescape_loop fuel quote r.1) rest)
    ]

-- What `unescape` comes to.
abbrev pub Result : Text → Unescaped → Type 0
Result str u =
    ((t : Text) × (u ≡ unescaped t)) ⊎ (u ≡ quote_inside) ⊎ ((str ≡ []) × (u ≡ out_of_range))

ended-Result : (str : Text) (u : Unescaped) → IsEnded u → Result str u
ended-Result str (unescaped t) h = inl (t, refl)
ended-Result str quote_inside h = inr (inl refl)
ended-Result str out_of_range h = absurd h
ended-Result str out_of_fuel h = absurd h

-- Every text gets a result: its unescaped form, the panic about a quote that is not the last, or,
-- and only for the empty text, the panic of the slice that drops the leading quote.
pub unescape_total :
    (str : Text) (quote : ℕ)
    → ((t : Text) × (unescape str quote ≡ unescaped t))
      ⊎ (unescape str quote ≡ quote_inside)
      ⊎ ((str ≡ []) × (unescape str quote ≡ out_of_range))
unfolding unescape
unescape_total [] quote = inr (inr (refl, refl))
unescape_total (c ∷ str) quote =
    ended-Result _ _ (unescape_loop-IsEnded (suc (length str)) quote str (omega arith))
