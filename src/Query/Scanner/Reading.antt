-- ===== src/Query/Scanner/Reading.antt =====
-- Reading ASCII: what `next`, `peek` and the loops do on a text whose bytes are known.
use mathlib.Core.Path.{subst}
use xuandb.Prelude.{
  ℕ, zero, suc, ◌<◌, ◌≤◌, ◌≡◌, refl, arith, Bool, true, false, [], ◌∷◌, ◌++◌, append_assoc,
  append-nil, ap, sym, All, length, length-append,
}
use xuandb.Prelude.Text.{Text}
use xuandb.Query.Utf8.{decode_rune}
use xuandb.Query.Scanner.{Scanner, next, next_of, advance, special, new_line, at_end, eof}
use xuandb.Query.Scanner.Runes.{while_loop, while_class}

-- The look-ahead on a text, its bytes, and what is left behind it.
abbrev pub ahead : Text → ℕ
ahead [] = eof
ahead (c ∷ r) = c

abbrev pub first : Text → Text
first [] = []
first (c ∷ r) = c ∷ []

abbrev pub behind : Text → Text
behind [] = []
behind (c ∷ r) = r

-- A byte that is a rune by itself, and not NUL.
abbrev pub IsPlain : ℕ → Type 0
IsPlain c = (0 < c) × (c < 128)

abbrev pub StartsPlain : Text → Type 0
StartsPlain [] = Unit
StartsPlain (c ∷ r) = IsPlain c

-- From `s` to `t` the text `w` was read, and no error reported; `tail` is what comes next.
abbrev pub Read : Scanner → Text → Text → Scanner → Type 0
Read s w tail t =
    (t.rest ≡ behind tail)
    × (t.last_char ≡ first tail)
    × (t.text ≡ s.text ++ w)
    × (t.reports ≡ s.reports)
    × (t.collecting ≡ s.collecting)

special-Read :
    (c : ℕ) (r : Text) (s u : Scanner)
    → IsPlain c
    → Read s s.last_char (c ∷ r) u
    → Read s s.last_char (c ∷ r) (special (decode_rune c r) u)
unfolding special decode_rune new_line
special-Read c r s u (pos, ascii) h = ground arith

next_of-Read :
    (s : Scanner) (tail : Text)
    → StartsPlain tail
    → s.rest ≡ tail
    → ((next_of tail s).0 ≡ ahead tail) × Read s s.last_char tail (next_of tail s).1
unfolding next_of at_end
next_of-Read s [] h e = (refl, (e, refl, refl, refl, refl))
next_of-Read s (c ∷ r) (pos, ascii) e =
    let u = advance (decode_rune c r) s in
    let k : Read s s.last_char (c ∷ r) u = unfold advance decode_rune in ground arith in
    (unfold decode_rune in ground arith, special-Read c r s u (pos, ascii) k)

pub next-Read :
    (s : Scanner) (tail : Text)
    → StartsPlain tail
    → s.rest ≡ tail
    → ((next s).0 ≡ ahead tail) × Read s s.last_char tail (next s).1
unfolding next
next-Read s tail h e =
    subst (λ r. ((next_of r s).0 ≡ ahead tail) × Read s s.last_char tail (next_of r s).1) (sym e)
      (next_of-Read s tail h e)

-- A text of plain bytes that a class accepts, up to a look-ahead that it does not.
abbrev pub AllIn : (ℕ → Bool) → Text → Type 0
AllIn p w = All (λ c. IsPlain c × (p c ≡ true)) w

StartsPlain-append :
    (p : ℕ → Bool) (w tail : Text) → AllIn p w → StartsPlain tail → StartsPlain (w ++ tail)
StartsPlain-append p [] tail a h = h
StartsPlain-append p (c ∷ w) tail ((plain, _), a) h = plain

-- A loop that reads `w` and stops before `tail`.
abbrev Looped : (ℕ → Bool) → Text → Text → ℕ → Scanner → ℕ → Type 0
Looped p w tail n s ch =
    ((while_loop p n ch s).0 ≡ ahead tail) × Read s w tail (while_loop p n ch s).1

while_loop-Read :
    (p : ℕ → Bool) (w tail : Text) (n : ℕ) (s : Scanner)
    → length w ≤ n
    → s.rest ≡ behind (w ++ tail)
    → s.last_char ≡ first (w ++ tail)
    → AllIn p w
    → StartsPlain tail
    → p (ahead tail) ≡ false
    → ((while_loop p n (ahead (w ++ tail)) s).0 ≡ ahead tail)
      × Read s w tail (while_loop p n (ahead (w ++ tail)) s).1
unfolding while_loop
while_loop-Read p [] tail zero s m r l a st stop = ground (arith, append-nil s.text)
while_loop-Read p (c ∷ w) tail zero s m r l a st stop = absurd (omega arith)
while_loop-Read p [] tail (suc n) s m r l a st stop = ground (arith, append-nil s.text)
while_loop-Read p (c ∷ w) tail (suc n) s m r l ((plain, good), a) st stop =
    let read = next-Read s (w ++ tail) (StartsPlain-append p w tail a st) r in
    let t = (next s).1 in
    let ih = while_loop-Read p w tail n t (omega arith) read.1.0 read.1.1 a st stop in
    let rest : Looped p w tail n t (next s).0 = subst (Looped p w tail n t) (sym read.0) ih in
    rw (good, while_loop) (ground (arith, read, rest, append_assoc s.text (c ∷ []) w))

pub while_class-Read :
    (p : ℕ → Bool) (w tail : Text) (s : Scanner)
    → s.rest ≡ behind (w ++ tail)
    → s.last_char ≡ first (w ++ tail)
    → AllIn p w
    → StartsPlain tail
    → p (ahead tail) ≡ false
    → ((while_class p (ahead (w ++ tail)) s).0 ≡ ahead tail)
      × Read s w tail (while_class p (ahead (w ++ tail)) s).1
unfolding while_class
while_class-Read p w tail s r l a st stop =
    while_loop-Read p w tail (suc (length s.rest)) s (enough w r) r l a st stop
  where
    enough : (w : Text) → s.rest ≡ behind (w ++ tail) → length w ≤ suc (length s.rest)
    enough [] e = omega arith
    enough (c ∷ w) e = omega (arith, ap length e, length-append w tail)
