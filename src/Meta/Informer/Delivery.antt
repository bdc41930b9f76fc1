-- ===== src/Meta/Informer/Delivery.antt =====
-- Every event is handled once, in the order in which the events are sent.
use mathlib.Core.Path.{subst}
use xuandb.Prelude.{
  ℕ, zero, suc, ◌+◌, ◌≡◌, ◌≤◌, refl, sym, ap, ◌∙◌, arith, Bool, true, false, ltb, if◌then◌else◌,
  List, [], ◌∷◌, ◌++◌, append_assoc, append-nil, length, length-append,
}
use xuandb.Prelude.Text.{Text}
use xuandb.Meta.Types.{Database, Event}
use xuandb.Meta.Informer.{
  Informer, Outcome, moved, blocked, panicked, Action, send, add_create, add_drop, close, wait,
  turn, channel_size, send_event, calls_of, receive, call_or_receive, take_turn, close_channel,
  wait_over, act, and_then, schedule,
}

module _ {W : Type 0} where
  unfoldable pub sent : List (Action W) → List Event
  sent [] = []
  sent (send evt ∷ actions) = evt ∷ sent actions
  sent (add_create handler ∷ actions) = sent actions
  sent (add_drop handler ∷ actions) = sent actions
  sent (close ∷ actions) = sent actions
  sent (wait ∷ actions) = sent actions
  sent (turn ∷ actions) = sent actions

  -- No handler is added.
  abbrev pub AddsNone : List (Action W) → Type 0
  AddsNone [] = Unit
  AddsNone (send evt ∷ actions) = AddsNone actions
  AddsNone (add_create handler ∷ actions) = ⊥
  AddsNone (add_drop handler ∷ actions) = ⊥
  AddsNone (close ∷ actions) = AddsNone actions
  AddsNone (wait ∷ actions) = AddsNone actions
  AddsNone (turn ∷ actions) = AddsNone actions

  unfoldable pub call_all : List (W → W) → W → W
  call_all [] w = w
  call_all (f ∷ calls) w = call_all calls (f w)

  unfoldable pub turns : ℕ → List (Action W)
  turns zero = []
  turns (suc n) = turn ∷ turns n

  pub turns-add : (m n : ℕ) → turns (m + n) ≡ turns m ++ turns n
  unfolding turns
  turns-add zero n = ap turns (omega arith)
  turns-add (suc m) n = ap turns (suc_add m n) ∙ ap (λ t. turn ∷ t) (turns-add m n)
    where
      suc_add : (m n : ℕ) → suc m + n ≡ suc (m + n)
      suc_add m n = omega arith

  and_then_assoc :
      (r : Outcome W) (f g : Informer W → Outcome W)
      → and_then (and_then r f) g ≡ and_then r (λ di. and_then (f di) g)
  unfolding and_then
  and_then_assoc (moved di) f g = refl
  and_then_assoc blocked f g = refl
  and_then_assoc (panicked msg) f g = refl

  pub schedule-append :
      (first rest : List (Action W)) (di : Informer W)
      → schedule (first ++ rest) di ≡ and_then (schedule first di) (schedule rest)
  unfolding schedule and_then
  schedule-append [] rest di = refl
  schedule-append (a ∷ first) rest di =
      ap (and_then (act a di)) (λ i dk. schedule-append first rest dk i)
      ∙ sym (and_then_assoc (act a di) (schedule first) (schedule rest))

  -- What holds of the informer where the step can be made.
  abbrev pub Holds : (Informer W → Type 0) → Outcome W → Type 0
  Holds P (moved di) = P di
  Holds P blocked = Unit
  Holds P (panicked msg) = Unit

  if-Holds :
      (P : Informer W → Type 0) (c : Bool) (r q : Outcome W)
      → (c ≡ true → Holds P r)
      → (c ≡ false → Holds P q)
      → Holds P (if c then r else q)
  if-Holds P true r q h k = h refl
  if-Holds P false r q h k = k refl

  and_then-Holds :
      (P Q : Informer W → Type 0) (r : Outcome W) (f : Informer W → Outcome W)
      → Holds P r
      → ((di : Informer W) → P di → Holds Q (f di))
      → Holds Q (and_then r f)
  unfolding and_then
  and_then-Holds P Q (moved di) f h k = k di h
  and_then-Holds P Q blocked f h k = tt
  and_then-Holds P Q (panicked msg) f h k = tt

module _ {W : Type 0} (creates : List (Database → W → W)) (drops : List (Text → W → W)) where
  unfoldable pub handle_all : List Event → W → W
  handle_all [] w = w
  handle_all (evt ∷ es) w = handle_all es (call_all (calls_of creates drops evt) w)

  pub handle_all-last :
      (es : List Event) (evt : Event) (w : W)
      → handle_all (es ++ evt ∷ []) w ≡ call_all (calls_of creates drops evt) (handle_all es w)
  unfolding handle_all
  handle_all-last [] evt w = refl
  handle_all-last (e ∷ es) evt w = handle_all-last es evt (call_all (calls_of creates drops e) w)

  pub record IsDelivered (w : W) (es : List Event) (di : Informer W) : Type 0 where
    pub taken : List Event
    pub split : taken ++ di.ch ≡ es
    pub handled : call_all di.calls di.world ≡ handle_all taken w
    pub fits : length di.ch ≤ channel_size
    pub ended : di.over ≡ true → (di.ch ≡ []) × (di.calls ≡ []) × (di.closed ≡ true)
    pub same_creates : di.create_handlers ≡ creates
    pub same_drops : di.drop_handlers ≡ drops

  module _ (w : W) where
    send_event-IsDelivered :
        (evt : Event) (es : List Event) (di : Informer W)
        → IsDelivered w es di
        → Holds (IsDelivered w (es ++ evt ∷ [])) (send_event evt di)
    unfolding send_event
    send_event-IsDelivered evt es di h =
        if-Holds _ di.closed _ _ (λ closed. tt)
          (λ still.
            if-Holds _ (ltb (length di.ch) channel_size) _ _
              (λ room. record {
                taken = h.taken;
                split =
                    sym (append_assoc h.taken di.ch (evt ∷ [])) ∙ ap (λ t. t ++ evt ∷ []) h.split;
                handled = h.handled;
                fits = ground (arith, length-append di.ch (evt ∷ []), room);
                ended = λ over. let (a, b, c) = h.ended over in absurd (cc (c, still));
                same_creates = h.same_creates;
                same_drops = h.same_drops;
              })
              (λ full. tt))

    receive-IsDelivered :
        (ch es : List Event) (di : Informer W)
        → IsDelivered w es di
        → di.ch ≡ ch
        → di.calls ≡ []
        → di.over ≡ false
        → Holds (IsDelivered w es) (receive ch di)
    unfolding receive call_all
    receive-IsDelivered [] es di h e none_left going =
        if-Holds _ di.closed _ _
          (λ closed. record {
            taken = h.taken;
            split = h.split;
            handled = h.handled;
            fits = h.fits;
            ended = λ _. (e, none_left, closed);
            same_creates = h.same_creates;
            same_drops = h.same_drops;
          })
          (λ still. tt)
    receive-IsDelivered (evt ∷ ch) es di h e none_left going = record {
      taken = h.taken ++ evt ∷ [];
      split = append_assoc h.taken (evt ∷ []) ch ∙ ap (λ t. h.taken ++ t) (sym e) ∙ h.split;
      handled =
          ap (λ cs. call_all (calls_of cs di.drop_handlers evt) di.world) h.same_creates
          ∙ ap (λ ds. call_all (calls_of creates ds evt) di.world) h.same_drops
          ∙ ap (call_all (calls_of creates drops evt))
              (ap (λ c. call_all c di.world) (sym none_left) ∙ h.handled)
          ∙ sym (handle_all-last h.taken evt w);
      fits = omega (arith, h.fits, ap length e);
      ended = λ over. absurd (cc (over, going));
      same_creates = h.same_creates;
      same_drops = h.same_drops;
    }

    turn-IsDelivered :
        (calls : List (W → W)) (es : List Event) (di : Informer W)
        → IsDelivered w es di
        → di.calls ≡ calls
        → di.over ≡ false
        → Holds (IsDelivered w es) (call_or_receive calls di)
    unfolding call_or_receive call_all
    turn-IsDelivered [] es di h e going = receive-IsDelivered di.ch es di h refl e going
    turn-IsDelivered (f ∷ calls) es di h e going = record {
      taken = h.taken;
      split = h.split;
      handled = ap (λ c. call_all c di.world) (sym e) ∙ h.handled;
      fits = h.fits;
      ended = λ over. absurd (cc (over, going));
      same_creates = h.same_creates;
      same_drops = h.same_drops;
    }

    take_turn-IsDelivered :
        (es : List Event) (di : Informer W)
        → IsDelivered w es di
        → Holds (IsDelivered w es) (take_turn di)
    unfolding take_turn
    take_turn-IsDelivered es di h =
        if-Holds _ di.over _ _ (λ over. tt) (turn-IsDelivered di.calls es di h refl)

    close_channel-IsDelivered :
        (es : List Event) (di : Informer W)
        → IsDelivered w es di
        → Holds (IsDelivered w es) (close_channel di)
    unfolding close_channel
    close_channel-IsDelivered es di h =
        if-Holds _ di.closed _ _ (λ closed. tt)
          (λ still. record {
            taken = h.taken;
            split = h.split;
            handled = h.handled;
            fits = h.fits;
            ended = λ over. let (a, b, c) = h.ended over in (a, b, refl);
            same_creates = h.same_creates;
            same_drops = h.same_drops;
          })

    wait_over-IsDelivered :
        (es : List Event) (di : Informer W)
        → IsDelivered w es di
        → Holds (IsDelivered w es) (wait_over di)
    unfolding wait_over
    wait_over-IsDelivered es di h = if-Holds _ di.over _ _ (λ over. h) (λ going. tt)

    pub schedule-IsDelivered :
        (actions : List (Action W)) (es : List Event) (di : Informer W)
        → AddsNone actions
        → IsDelivered w es di
        → Holds (IsDelivered w (es ++ sent actions)) (schedule actions di)
    unfolding schedule act sent
    schedule-IsDelivered [] es di quiet h = subst (λ t. IsDelivered w t di) (sym (append-nil es)) h
    schedule-IsDelivered (send evt ∷ actions) es di quiet h =
        subst (λ t. Holds (IsDelivered w t) (and_then (send_event evt di) (schedule actions)))
          (append_assoc es (evt ∷ []) (sent actions))
          (and_then-Holds (IsDelivered w (es ++ evt ∷ []))
            (IsDelivered w ((es ++ evt ∷ []) ++ sent actions)) (send_event evt di)
            (schedule actions) (send_event-IsDelivered evt es di h)
            (λ dk. schedule-IsDelivered actions (es ++ evt ∷ []) dk quiet))
    schedule-IsDelivered (close ∷ actions) es di quiet h =
        and_then-Holds _ _ (close_channel di) (schedule actions) (close_channel-IsDelivered es di h)
          (λ dk. schedule-IsDelivered actions es dk quiet)
    schedule-IsDelivered (wait ∷ actions) es di quiet h =
        and_then-Holds _ _ (wait_over di) (schedule actions) (wait_over-IsDelivered es di h)
          (λ dk. schedule-IsDelivered actions es dk quiet)
    schedule-IsDelivered (turn ∷ actions) es di quiet h =
        and_then-Holds _ _ (take_turn di) (schedule actions) (take_turn-IsDelivered es di h)
          (λ dk. schedule-IsDelivered actions es dk quiet)
    schedule-IsDelivered (add_create handler ∷ actions) es di quiet h = absurd quiet
    schedule-IsDelivered (add_drop handler ∷ actions) es di quiet h = absurd quiet
