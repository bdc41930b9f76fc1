-- ===== src/Query/Scanner/Fuel/Runs.antt =====
-- The loops of pkg/query/parser/scanner.go without fuel: each is a relation with a constructor for
-- a round and one for each way out, so that what it relates is what a loop that ends comes to.
use xuandb.Prelude.{
  ℕ, zero, suc, ◌+◌, ◌≡◌, ◌<◌, refl, arith, Bool, true, false, ◌==◌, ◌||◌, ◌&&◌, ltb, Bool-cases,
  if◌then◌else◌, inl, inr, length, ap, ◌∙◌,
}
use xuandb.Prelude.Text.{codes}
use xuandb.Query.Scanner.{Scanner, next, error, is_negative, eof as end_of_source}
use xuandb.Query.Scanner.Runes.{is_decimal, while_loop, while_class}
use xuandb.Query.Scanner.Number.{
  Digits, digits, Scanned, UnitResult, unit_read, returned, scan_unit, duration_end, duration_loop,
  scan_duration,
}
use xuandb.Query.Scanner.Quoted.{
  string_loop, scan_escape, block_loop, scan_string, scan_block_comment,
}
use xuandb.Query.Scanner.Fuel.{
  Enough, next-Shrinks, Rounds, Rounds-next, Rounds-start, moved, moved-Shrinks,
}
use xuandb.Query.Scanner.Fuel.Durations.{
  UnitShrinks, scan_unit-Shrinks, behind_unit, digits_shorter,
}

-- A loop that reads on while `p` holds.
pub data ClassRun (p : ℕ → Bool) : ℕ × Scanner → ℕ × Scanner → Type 0 where
  stops : (ch : ℕ) (s : Scanner) → p ch ≡ false → ClassRun p (ch, s) (ch, s)
  reads :
      (ch : ℕ) (s : Scanner) (out : ℕ × Scanner)
      → p ch ≡ true
      → ClassRun p (next s) out
      → ClassRun p (ch, s) out

-- The loop of `scanBlockComment`.
pub data BlockRun : ℕ × Scanner → ℕ × Scanner → Type 0 where
  not_terminated :
      (ch : ℕ) (s : Scanner)
      → is_negative ch ≡ true
      → BlockRun (ch, s) (ch, error (codes "comment not terminated") s)
  closed :
      (ch : ℕ) (s : Scanner)
      → is_negative ch ≡ false
      → (ch == b'*' && (next s).0 == b'/') ≡ true
      → BlockRun (ch, s) (next (next s).1)
  reads :
      (ch : ℕ) (s : Scanner) (out : ℕ × Scanner)
      → is_negative ch ≡ false
      → (ch == b'*' && (next s).0 == b'/') ≡ false
      → BlockRun (next s) out
      → BlockRun (ch, s) out

-- The loop of `scanString`.
pub data StringRun (quote : ℕ) : ℕ × Scanner → Scanner → Type 0 where
  closed : (ch : ℕ) (s : Scanner) → (ch == quote) ≡ true → StringRun quote (ch, s) s
  not_terminated :
      (ch : ℕ) (s : Scanner)
      → (ch == quote) ≡ false
      → (ch == b'\n' || is_negative ch) ≡ true
      → StringRun quote (ch, s) (error (codes "literal not terminated") s)
  reads :
      (ch : ℕ) (s : Scanner) (out : Scanner)
      → (ch == quote) ≡ false
      → (ch == b'\n' || is_negative ch) ≡ false
      → StringRun quote (if ch == b'\\' then scan_escape quote s else next s) out
      → StringRun quote (ch, s) out

-- The loop of `duration`.
pub data DurationRun : Bool → Bool → ℕ → Scanner → Scanned → Type 0 where
  returns :
      (saw_unit not_dec : Bool) (ch : ℕ) (s : Scanner) (out : Scanned)
      → scan_unit saw_unit ch s ≡ returned out
      → DurationRun saw_unit not_dec ch s out
  ends :
      (saw_unit not_dec : Bool) (ch c : ℕ) (s t : Scanner)
      → scan_unit saw_unit ch s ≡ unit_read (c, t)
      → is_decimal c ≡ false
      → DurationRun saw_unit not_dec ch s (duration_end not_dec c t)
  goes_on :
      (saw_unit not_dec : Bool) (ch c : ℕ) (s t : Scanner) (d : Digits) (out : Scanned)
      → scan_unit saw_unit ch s ≡ unit_read (c, t)
      → is_decimal c ≡ true
      → digits (next t).0 10 0 (next t).1 ≡ d
      → DurationRun true (not_dec || (c == b'0' && ltb 0 d.n)) d.ch d.s out
      → DurationRun saw_unit not_dec ch s out

while_loop-run :
    (p : ℕ → Bool) (n ch : ℕ) (s : Scanner)
    → p end_of_source ≡ false
    → Enough p n (ch, s)
    → ClassRun p (ch, s) (while_loop p n ch s)
unfolding while_loop
while_loop-run p zero ch s q (inl h) = absurd (omega arith)
while_loop-run p zero ch s q (inr h) = stops ch s h
while_loop-run p (suc n) ch s q h = elim (Bool-cases (p ch)) [
  | inr e ↦ rw (e, while_loop) (stops ch s e)
  | inl e ↦
      let left : Enough p n (next s) = elim (next-Shrinks s) [
        | inl at_eof ↦ inr (ap p at_eof ∙ q)
        | inr shorter ↦ inl (ground (arith, h, e))
      ] in
      rw (e, while_loop) (ClassRun.reads ch s _ e (while_loop-run p n (next s).0 (next s).1 q left))
]

pub while_class-run :
    (p : ℕ → Bool) (ch : ℕ) (s : Scanner)
    → p end_of_source ≡ false
    → ClassRun p (ch, s) (while_class p ch s)
unfolding while_class
while_class-run p ch s q = while_loop-run p (suc (length s.rest)) ch s q (inl (omega arith))

block_loop-run : (n : ℕ) (p : ℕ × Scanner) → Rounds n p → BlockRun p (block_loop n p)
unfolding block_loop
block_loop-run zero (ch, s) a = absurd (ground (arith, a))
block_loop-run (suc n) (ch, s) a = elim (Bool-cases (is_negative ch)) [
  | inl e ↦ rw (e, block_loop) (BlockRun.not_terminated ch s e)
  | inr e ↦ elim (Bool-cases (ch == b'*' && (next s).0 == b'/')) [
    | inl f ↦ rw (e, f, block_loop) (BlockRun.closed ch s e f)
    | inr f ↦
        let h : length s.rest + 1 < suc n = ground (arith, a, e) in
        rw (e, f, block_loop)
          (BlockRun.reads ch s _ e f
            (block_loop-run n (next s) (Rounds-next n s (next s) (next-Shrinks s) h)))
  ]
]

pub scan_block_comment-run : (s : Scanner) → BlockRun (next s) (scan_block_comment s)
unfolding scan_block_comment
scan_block_comment-run s =
    let n = suc (suc (length s.rest)) in block_loop-run n (next s) (Rounds-start n s (omega arith))

string_loop-run :
    (n quote : ℕ) (p : ℕ × Scanner)
    → (quote == end_of_source) ≡ false
    → Rounds n p
    → StringRun quote p (string_loop n quote p)
unfolding string_loop
string_loop-run zero quote (ch, s) q a = absurd (ground (arith, a))
string_loop-run (suc n) quote (ch, s) q a = elim (Bool-cases (ch == quote)) [
  | inl e ↦ rw (e, string_loop) (StringRun.closed ch s e)
  | inr e ↦ elim (Bool-cases (ch == b'\n' || is_negative ch)) [
    | inl f ↦ rw (e, f, string_loop) (StringRun.not_terminated ch s e f)
    | inr f ↦
        let h : length s.rest + 1 < suc n = ground (arith, a, f) in
        let p = moved quote (ch, s) in
        rw (e, f, string_loop)
          (StringRun.reads ch s _ e f
            (string_loop-run n quote p q (Rounds-next n s p (moved-Shrinks quote (ch, s) q) h)))
  ]
]

pub scan_string-run :
    (quote : ℕ) (s : Scanner)
    → (quote == end_of_source) ≡ false
    → (t : Scanner) × StringRun quote (next s) t × (scan_string quote s ≡ next t)
unfolding scan_string
scan_string-run quote s q =
    let n = suc (suc (length s.rest)) in
    (
      string_loop n quote (next s),
      string_loop-run n quote (next s) q (Rounds-start n s (omega arith)),
      refl,
    )

behind_unit-run :
    (n : ℕ) (saw_unit not_dec : Bool) (ch : ℕ) (s : Scanner) (u : UnitResult)
    → scan_unit saw_unit ch s ≡ u
    → UnitShrinks s u
    → length s.rest < suc n
    → ((saw_unit not_dec : Bool) (ch : ℕ) (s : Scanner)
        → length s.rest < n
        → DurationRun saw_unit not_dec ch s (duration_loop n saw_unit not_dec ch s))
    → DurationRun saw_unit not_dec ch s (behind_unit n not_dec u)
behind_unit-run n saw_unit not_dec ch s (returned r) e h a loop = returns saw_unit not_dec ch s r e
behind_unit-run n saw_unit not_dec ch s (unit_read (c, t)) e h a loop =
    let d = digits (next t).0 10 0 (next t).1 in
    elim (Bool-cases (is_decimal c)) [
      | inl f ↦
          rw (f, behind_unit)
            (goes_on saw_unit not_dec ch c s t d _ e f refl (
              loop true (not_dec || (c == b'0' && ltb 0 d.n)) d.ch d.s
                (digits_shorter s t c n h f a)))
      | inr f ↦ rw (f, behind_unit) (ends saw_unit not_dec ch c s t e f)
    ]

duration_loop-run :
    (n : ℕ) (saw_unit not_dec : Bool) (ch : ℕ) (s : Scanner)
    → length s.rest < n
    → DurationRun saw_unit not_dec ch s (duration_loop n saw_unit not_dec ch s)
unfolding duration_loop
duration_loop-run zero saw_unit not_dec ch s a = absurd (omega arith)
duration_loop-run (suc n) saw_unit not_dec ch s a =
    behind_unit-run n saw_unit not_dec ch s (scan_unit saw_unit ch s) refl
      (scan_unit-Shrinks saw_unit ch s) a (duration_loop-run n)

pub scan_duration-run :
    (ch : ℕ) (not_dec : Bool) (s : Scanner)
    → DurationRun false not_dec ch s (scan_duration ch not_dec s)
unfolding scan_duration
scan_duration-run ch not_dec s =
    duration_loop-run (suc (length s.rest)) false not_dec ch s (omega arith)
