-- ===== src/Query/Scanner/Buffer/Filling.antt =====
-- What the loop that refills the buffer keeps.
use xuandb.Prelude.{
  ℕ, zero, suc, ◌+◌, ◌-◌, ◌≡◌, ◌≤◌, ◌<◌, refl, arith, ap, ◌∙◌, Bool, true, false, if◌then◌else◌,
  Bool-cases, ◌⊎◌, inl, inr, [], ◌∷◌, ◌++◌, append_assoc, append-nil, length, length-append, take,
  drop, take-drop, length-take, Option, none, some,
}
use xuandb.Prelude.Text.{Text}
use xuandb.Query.Scanner.{Scanner}
use xuandb.Query.Scanner.Buffer.{
  Buffered, buf_len, saved_at, start_if, shift, read_size, read, needs_more, full_rune,
  buffered_end, fill, is_empty,
}

-- What does not depend on how the token's text is kept: the bytes that are left, the positions, the
-- look-ahead and the reports; and the buffer is not longer than `bufLen`.
abbrev pub Agrees : Buffered → Scanner → Type 0
Agrees b s =
    (b.ahead ++ b.unread ≡ s.rest)
    × (b.src_buf_offset + length b.before ≡ s.offset)
    × (b.line ≡ s.line)
    × (b.column ≡ s.column)
    × (b.last_line_len ≡ s.last_line_len)
    × (b.last_char_len ≡ length s.last_char)
    × (b.ch ≡ s.ch)
    × (b.reports ≡ s.reports)
    × (b.position ≡ s.position)
    × (length b.before + length b.ahead ≤ buf_len)

abbrev pub is_collecting : Option ℕ → Bool
is_collecting none = false
is_collecting (some i) = true

-- The token's text with the last character.
abbrev pub whole_at : Buffered → Option ℕ → Text
whole_at b none = []
whole_at b (some i) = saved_at b (some i)

abbrev pub whole_text : Scanner → Text
whole_text s = if s.collecting then s.text ++ s.last_char else []

-- A token that starts, if there is one, at `n` at the latest.
abbrev pub IsWithin : Option ℕ → ℕ → Type 0
IsWithin none n = Unit
IsWithin (some i) n = i ≤ n

-- In the loop: the last character may have left the buffer.
abbrev pub Filling : Buffered → Scanner → Type 0
Filling b s =
    Agrees b s
    × (is_collecting b.tok_pos ≡ s.collecting)
    × (whole_at b b.tok_pos ≡ whole_text s)
    × IsWithin b.tok_pos (length b.before)

start_collects : (o : Option ℕ) → is_collecting (start_if o) ≡ is_collecting o
start_collects none = refl
start_collects (some i) = refl

start-IsWithin : (o : Option ℕ) → IsWithin (start_if o) 0
start-IsWithin none = tt
start-IsWithin (some i) = omega arith

start_whole :
    (b : Buffered) (o : Option ℕ)
    → whole_at (record b { before = []; tok_buf = saved_at b o }) (start_if o) ≡ whole_at b o
start_whole b none = refl
start_whole b (some i) = append-nil (saved_at b (some i))

shift-Filling : (b : Buffered) (s : Scanner) → Filling b s → Filling (shift b) s
unfolding shift
shift-Filling b s (agrees, collects, text, _) = (
  ground (arith, agrees),
  start_collects b.tok_pos ∙ collects,
  start_whole b b.tok_pos ∙ text,
  start-IsWithin b.tok_pos,
)

read_size-bounds :
    (pick : ℕ → Text → ℕ) (room : ℕ) (c : ℕ) (r : Text)
    → 0 < room
    → (0 < read_size pick room (c ∷ r))
      × (read_size pick room (c ∷ r) ≤ room)
      × (read_size pick room (c ∷ r) ≤ length (c ∷ r))
read_size-bounds pick room c r h = (omega arith, ground arith, ground arith)

abbrev with_read : (ℕ → Text → ℕ) → Text → Text → Text
with_read pick a u = a ++ take (read_size pick (buf_len - length a) u) u

-- A read takes at least one byte, and no more than fit.
read_fits :
    (pick : ℕ → Text → ℕ) (a u : Text)
    → is_empty u ≡ false
    → length a < buf_len
    → (length a < length (with_read pick a u)) × (length (with_read pick a u) ≤ buf_len)
read_fits pick a [] some_left fits = absurd (cc some_left)
read_fits pick a (c ∷ r) some_left fits =
    let n = read_size pick (buf_len - length a) (c ∷ r) in
    let (pos, fit, there) = read_size-bounds pick (buf_len - length a) c r (omega arith) in
    let len = length-append a (take n (c ∷ r)) in
    let got = length-take n (c ∷ r) there in
    (omega (arith, pos, len, got), omega (arith, fit, len, got))

read_all :
    (pick : ℕ → Text → ℕ) (a u : Text)
    → with_read pick a u ++ drop (read_size pick (buf_len - length a) u) u ≡ a ++ u
read_all pick a u =
    let n = read_size pick (buf_len - length a) u in
    append_assoc a (take n u) (drop n u) ∙ ap (λ t. a ++ t) (take-drop n u)

read-Filling :
    (pick : ℕ → Text → ℕ) (b : Buffered) (s : Scanner)
    → b.before ≡ []
    → length b.ahead < 4
    → is_empty b.unread ≡ false
    → Filling b s
    → Filling (read pick b) s × (length b.ahead < length (read pick b).ahead)
unfolding read
read-Filling pick b s empty short some_left (agrees, collects, text, within) =
    let (more, fits) = read_fits pick b.ahead b.unread some_left (omega arith) in
    let (rest, offset, line, column, last, len, ch, reports, position, _) = agrees in
    (
      (
        (
          read_all pick b.ahead b.unread ∙ rest,
          offset,
          line,
          column,
          last,
          len,
          ch,
          reports,
          position,
          omega (arith, ap length empty, fits),
        ),
        collects,
        text,
        within,
      ),
      more,
    )

-- What the loop leaves: a rune that is full or all there is, in a buffer that is not empty.
abbrev pub IsFilled : Buffered → Scanner → Type 0
IsFilled b s =
    Filling b s × (is_empty b.ahead ≡ false) × ((needs_more b.ahead ≡ false) ⊎ (b.unread ≡ []))

-- At the end of the source.
abbrev pub IsEnded : Buffered → Scanner → Type 0
IsEnded b s =
    (u : Buffered) × (b ≡ buffered_end u)
    × Filling u s
    × (u.before ≡ [])
    × (u.ahead ≡ [])
    × (u.unread ≡ [])

abbrev pub FillResult : Buffered ⊎ Buffered → Scanner → Type 0
FillResult (inl b) s = IsEnded b s
FillResult (inr b) s = IsFilled b s

is_empty-nil : (t : Text) → is_empty t ≡ true → t ≡ []
is_empty-nil [] e = refl
is_empty-nil (c ∷ t) e = absurd (cc e)

full_not_empty : (t : Text) → needs_more t ≡ false → is_empty t ≡ false
unfolding full_rune
full_not_empty [] e = absurd (cc e)
full_not_empty (c ∷ t) e = refl

pub fill-Result :
    (pick : ℕ → Text → ℕ) (n : ℕ) (b : Buffered) (s : Scanner)
    → Filling b s
    → 4 ≤ n + length b.ahead
    → FillResult (fill pick n b) s
unfolding fill
fill-Result pick zero b s f h =
    let e : needs_more b.ahead ≡ false = ground arith in (f, full_not_empty b.ahead e, inl e)
fill-Result pick (suc n) b s f h = elim (Bool-cases (needs_more b.ahead)) [
  | inr full ↦ rw (full, fill) (f, full_not_empty b.ahead full, inl full)
  | inl more ↦ elim (Bool-cases (is_empty b.unread)) [
    | inr some_left ↦
        let shifted = shift-Filling b s f in
        let (filling, grew) =
          read-Filling pick (shift b) s (unfold shift in refl)
            (unfold shift in ground (arith, more)) (unfold shift in some_left) shifted in
        rw (more, some_left, fill)
          (fill-Result pick n (read pick (shift b)) s filling
            (unfold shift in ground (arith, grew, h)))
    | inl none_left ↦ elim (Bool-cases (is_empty b.ahead)) [
      | inl nothing ↦
          rw (more, none_left, nothing, fill)
            (
              shift b,
              refl,
              shift-Filling b s f,
              unfold shift in refl,
              unfold shift in is_empty-nil b.ahead nothing,
              unfold shift in is_empty-nil b.unread none_left,
            )
      | inr rest ↦
          rw (more, none_left, rest, fill)
            (
              shift-Filling b s f,
              unfold shift in rest,
              inr (unfold shift in is_empty-nil b.unread none_left),
            )
    ]
  ]
]
