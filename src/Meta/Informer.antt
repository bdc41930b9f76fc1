-- ===== src/Meta/Informer.antt =====
-- The database informer of pkg/meta/database.go: its channel, its handlers, and the goroutine that
-- `run` starts. What the handlers change is `world`; they run on that goroutine only.
pub mod Delivery
pub mod Drained
use xuandb.Prelude.{ℕ, Bool, true, false, ltb, if◌then◌else◌, List, [], ◌∷◌, ◌++◌, map, length}
use xuandb.Prelude.Text.{Text, codes}
use xuandb.Meta.Types.{Database, Event, created, dropped}

-- `calls` is what the goroutine has still to call for the event that it took from the channel; it
-- is `over` behind its loop, at `wg.Done`.
pub record Informer (W : Type 0) : Type 0 where
  pub ch : List Event
  pub closed : Bool
  pub create_handlers : List (Database → W → W)
  pub drop_handlers : List (Text → W → W)
  pub calls : List (W → W)
  pub over : Bool
  pub world : W

-- What one of the goroutines comes to: it goes on, it waits for another one, or it panics.
pub data Outcome (W : Type 0) : Type 0 where
  moved : Informer W → Outcome W
  blocked : Outcome W
  panicked : Text → Outcome W

-- `make(chan any, 10)`
abbrev pub channel_size : ℕ
channel_size = 10

-- A call of another goroutine, or a step of the informer's own one.
pub data Action (W : Type 0) : Type 0 where
  send : Event → Action W
  add_create : (Database → W → W) → Action W
  add_drop : (Text → W → W) → Action W
  close wait turn : Action W

module _ {W : Type 0} where
  -- `dbInit`
  unfoldable pub informer_init : W → Informer W
  informer_init w = record {
    ch = [];
    closed = false;
    create_handlers = [];
    drop_handlers = [];
    calls = [];
    over = false;
    world = w;
  }

  unfoldable pub add_create_handler : (Database → W → W) → Informer W → Informer W
  add_create_handler handler di = record di { create_handlers = di.create_handlers ++ handler ∷ [] }

  unfoldable pub add_drop_handler : (Text → W → W) → Informer W → Informer W
  add_drop_handler handler di = record di { drop_handlers = di.drop_handlers ++ handler ∷ [] }

  -- `di.ch <- evt` waits while the channel is full.
  unfoldable pub send_event : Event → Informer W → Outcome W
  send_event evt di =
      if di.closed
      then panicked (codes "send on closed channel")
      else if ltb (length di.ch) channel_size
      then moved (record di { ch = di.ch ++ evt ∷ [] })
      else blocked

  -- The loops over the handlers.
  unfoldable pub calls_of : List (Database → W → W) → List (Text → W → W) → Event → List (W → W)
  calls_of creates drops (created db) = map (λ handler. handler db) creates
  calls_of creates drops (dropped name) = map (λ handler. handler name) drops

  -- `range di.ch`
  unfoldable pub receive : List Event → Informer W → Outcome W
  receive [] di = if di.closed then moved (record di { over = true }) else blocked
  receive (evt ∷ ch) di =
      moved (record di { ch = ch; calls = calls_of di.create_handlers di.drop_handlers evt })

  unfoldable pub call_or_receive : List (W → W) → Informer W → Outcome W
  call_or_receive [] di = receive di.ch di
  call_or_receive (f ∷ calls) di = moved (record di { calls = calls; world = f di.world })

  unfoldable pub take_turn : Informer W → Outcome W
  take_turn di = if di.over then blocked else call_or_receive di.calls di

  -- `close(di.ch)`, and behind it `di.wg.Wait()`
  unfoldable pub close_channel : Informer W → Outcome W
  close_channel di =
      if di.closed
      then panicked (codes "close of closed channel")
      else moved (record di { closed = true })

  unfoldable pub wait_over : Informer W → Outcome W
  wait_over di = if di.over then moved di else blocked

  unfoldable pub act : Action W → Informer W → Outcome W
  act (send evt) di = send_event evt di
  act (add_create handler) di = moved (add_create_handler handler di)
  act (add_drop handler) di = moved (add_drop_handler handler di)
  act close di = close_channel di
  act wait di = wait_over di
  act turn di = take_turn di

  -- One step behind another, where the first one moved.
  unfoldable pub and_then : Outcome W → (Informer W → Outcome W) → Outcome W
  and_then (moved di) f = f di
  and_then blocked f = blocked
  and_then (panicked msg) f = panicked msg

  unfoldable pub schedule : List (Action W) → Informer W → Outcome W
  schedule [] di = moved di
  schedule (a ∷ actions) di = and_then (act a di) (schedule actions)
