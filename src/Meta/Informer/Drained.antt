-- ===== src/Meta/Informer/Drained.antt =====
-- The informer's loop, left alone, handles all that was sent.
use mathlib.Core.Path.{subst}
use xuandb.Prelude.{
  ℕ, zero, suc, ◌+◌, ◌≡◌, ◌≤◌, refl, sym, ap, ◌∙◌, arith, false, if◌then◌else◌, append-nil, List,
  [], ◌∷◌, ◌++◌, length, Bool-cases, inl, inr,
}
use xuandb.Prelude.Text.{Text}
use xuandb.Meta.Types.{Database, Event}
use xuandb.Meta.Informer.{
  Informer, moved, blocked, Action, channel_size, informer_init, calls_of, receive, call_or_receive,
  take_turn, act, and_then, schedule,
}
use xuandb.Meta.Informer.Delivery.{
  AddsNone, sent, call_all, turns, turns-add, schedule-append, handle_all, Holds, IsDelivered,
  schedule-IsDelivered,
}

module _ {W : Type 0} where
  turns_then :
      (m n : ℕ) (di dj : Informer W)
      → schedule (turns m) di ≡ moved dj
      → schedule (turns (m + n)) di ≡ schedule (turns n) dj
  unfolding and_then
  turns_then m n di dj h =
      ap (λ t. schedule t di) (turns-add m n)
      ∙ schedule-append (turns m) (turns n) di
      ∙ ap (λ r. and_then r (schedule (turns n))) h

  take_turn-going : (di : Informer W) → di.over ≡ false → take_turn di ≡ call_or_receive di.calls di
  unfolding take_turn
  take_turn-going di going =
      ap (λ over. if over then blocked else call_or_receive di.calls di) going

  finish_calls :
      (calls : List (W → W)) (di : Informer W)
      → di.over ≡ false
      → di.calls ≡ calls
      → schedule (turns (length calls)) di
        ≡ moved (record di { calls = []; world = call_all calls di.world })
  unfolding schedule turns and_then act take_turn call_or_receive call_all
  finish_calls [] di going e = ap (λ calls. moved (record di { calls = calls })) e
  finish_calls (f ∷ calls) di going e =
      ap (λ r. and_then r (schedule (turns (length calls))))
        (take_turn-going di going ∙ ap (λ calls. call_or_receive calls di) e)
      ∙ finish_calls calls (record di { calls = calls; world = f di.world }) going refl

module _ {W : Type 0} (creates : List (Database → W → W)) (drops : List (Text → W → W)) where
  -- Some number of turns of the loop leaves nothing to handle, and `w` in the end.
  abbrev pub Drains : Informer W → W → Type 0
  Drains di w =
      (n : ℕ) × (dk : Informer W) × (schedule (turns n) di ≡ moved dk)
      × (dk.ch ≡ [])
      × (dk.calls ≡ [])
      × (dk.world ≡ w)

  drain_events :
      (ch : List Event) (di : Informer W)
      → di.over ≡ false
      → di.ch ≡ ch
      → di.create_handlers ≡ creates
      → di.drop_handlers ≡ drops
      → Drains di (handle_all creates drops ch (call_all di.calls di.world))
  unfolding handle_all schedule turns and_then act call_or_receive receive call_all
  drain_events [] di going e c d = (
    length di.calls,
    record di { calls = []; world = call_all di.calls di.world },
    finish_calls di.calls di going refl,
    e,
    refl,
    refl,
  )
  drain_events (evt ∷ ch) di going e c d =
      let d1 = record di { calls = []; world = call_all di.calls di.world } in
      let d2 = record d1 { ch = ch; calls = calls_of di.create_handlers di.drop_handlers evt } in
      let (m, dk, drained, none_left, no_calls, handled) = drain_events ch d2 going refl c d in
      let received : schedule (turns (suc m)) d1 ≡ schedule (turns m) d2 =
        ap (λ r. and_then r (schedule (turns m)))
          (take_turn-going d1 going ∙ ap (λ ch. receive ch d1) e) in
      (
        length di.calls + suc m,
        dk,
        turns_then (length di.calls) (suc m) di d1 (finish_calls di.calls di going refl)
            ∙ received
            ∙ drained,
        none_left,
        no_calls,
        handled
            ∙ ap
                (λ cs.
                  handle_all creates drops ch
                    (call_all (calls_of cs di.drop_handlers evt) d1.world))
                c
            ∙ ap (λ ds. handle_all creates drops ch (call_all (calls_of creates ds evt) d1.world))
                d,
      )

  -- The informer behind the registration of its handlers.
  abbrev pub with_handlers : W → Informer W
  with_handlers w = record (informer_init w) { create_handlers = creates; drop_handlers = drops }

  handle_all-append :
      (es fs : List Event) (w : W)
      → handle_all creates drops (es ++ fs) w
        ≡ handle_all creates drops fs (handle_all creates drops es w)
  unfolding handle_all
  handle_all-append [] fs w = refl
  handle_all-append (evt ∷ es) fs w =
      handle_all-append es fs (call_all (calls_of creates drops evt) w)

  init-IsDelivered : (w : W) → IsDelivered creates drops w [] (with_handlers w)
  unfolding informer_init handle_all call_all
  init-IsDelivered w = record {
    taken = [];
    split = refl;
    handled = refl;
    fits = omega arith;
    ended = λ over. absurd (cc over);
    same_creates = refl;
    same_drops = refl;
  }

  drain-IsDelivered :
      (w : W) (es : List Event) (di : Informer W)
      → IsDelivered creates drops w es di
      → Drains di (handle_all creates drops es w)
  unfolding handle_all schedule turns call_all
  drain-IsDelivered w es di h = elim (Bool-cases di.over) [
    | inl over ↦
        let (none_left, no_calls, closed) = h.ended over in
        let all_taken : h.taken ≡ es =
          sym (append-nil h.taken) ∙ ap (λ ch. h.taken ++ ch) (sym none_left) ∙ h.split in
        (
          zero,
          di,
          refl,
          none_left,
          no_calls,
          ap (λ c. call_all c di.world) (sym no_calls)
              ∙ h.handled
              ∙ ap (λ t. handle_all creates drops t w) all_taken,
        )
    | inr going ↦
        let (n, dk, drained, none_left, no_calls, handled) =
          drain_events di.ch di going refl h.same_creates h.same_drops in
        (
          n,
          dk,
          drained,
          none_left,
          no_calls,
          handled
              ∙ ap (handle_all creates drops di.ch) h.handled
              ∙ sym (handle_all-append h.taken di.ch w)
              ∙ ap (λ t. handle_all creates drops t w) h.split,
        )
  ]

  -- With the handlers registered, and after any calls of `inform` and `close` and any turns of the
  -- loop, in any order that went on without a panic and did not wait for ever: the channel holds at
  -- most ten events, and some number of further turns of the loop, with no other call, leaves
  -- nothing in the channel and no call of a handler open, and each event that was sent has been
  -- handled once by every handler of its kind, in the order in which the events were sent.
  pub delivered :
      (w : W) (actions : List (Action W)) (di : Informer W)
      → AddsNone actions
      → schedule actions (with_handlers w) ≡ moved di
      → (length di.ch ≤ channel_size) × Drains di (handle_all creates drops (sent actions) w)
  delivered w actions di quiet ran =
      let h : IsDelivered creates drops w (sent actions) di =
        subst (Holds (IsDelivered creates drops w (sent actions))) ran (
          schedule-IsDelivered creates drops w actions [] (with_handlers w) quiet
            (init-IsDelivered w)) in
      (h.fits, drain-IsDelivered w (sent actions) di h)
