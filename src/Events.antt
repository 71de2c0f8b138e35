-- ===== src/Events.antt =====
-- wassupweb/utils/event_bus.py: handlers, and events that wait while a buffered function runs. A
-- handler is a number; a call of a handler is an entry of `calls`.
pub mod Order
use wassupweb.Prelude.{
  ℕ, zero, suc, ◌+◌, ◌-◌, ◌*◌, ◌/◌, ◌%◌, ◌^◌, ◌≤◌, ◌<◌, min, max, bit_and, bit_or, String, ◌≡◌,
  refl, sym, ap, ◌∙◌, ◌≢◌, ◌↔◌, ◌⊎◌, inl, inr, Bool, true, false, not, ◌&&◌, ◌||◌, Option, none,
  some, List, [], ◌∷◌, ◌++◌, map, arith, ltb, leb, ◌==◌, if◌then◌else◌, ltb→lt, lt→ltb, le→ltb,
  ==_iff, Bool-cases, Option-cases, ltb→le, IsByte, Bytes, All, All-append, length, get_elem?, take,
  drop, replicate, length-append, length-take, length-drop, length-replicate, take-length-append,
  drop-length-append, drop-add, take-length, Exception, Result, ◌>>=◌, ◌>>◌, Result-cases,
  >>=-eq-ok, ok-injective, ok, err, value_error, runtime_error, type_error, index_error,
  struct_error, key_error, recursion_error,
}
use wassupweb.Text.{Text, text_eq}

pub record EventBus (P : Type 0) : Type 0 where
  pub handlers : List (Text × List ℕ)
  pub is_buffering : Bool
  pub buffer_depth : ℕ
  pub buffered_events : List (Text × P)
  -- the tasks of `asyncio.create_task` that have not run
  pub tasks : List (List (Text × P))
  pub calls : List (ℕ × P)

unfoldable pub handlers_of : Text → List (Text × List ℕ) → List ℕ
handlers_of event [] = []
handlers_of event ((e, hs) ∷ table) = if text_eq e event then hs else handlers_of event table

-- `self._handlers[event].append(handler)`
unfoldable pub append_handler : Text → ℕ → List (Text × List ℕ) → List (Text × List ℕ)
append_handler event handler [] = (event, handler ∷ []) ∷ []
append_handler event handler ((e, hs) ∷ table) =
    if text_eq e event
    then (e, hs ++ handler ∷ []) ∷ table
    else (e, hs) ∷ append_handler event handler table

-- `list.remove`: the first one that is equal.
unfoldable pub remove_first : ℕ → List ℕ → List ℕ
remove_first handler [] = []
remove_first handler (h ∷ hs) = if h == handler then hs else h ∷ remove_first handler hs

unfoldable pub remove_handler : Text → ℕ → List (Text × List ℕ) → List (Text × List ℕ)
unfolding remove_first
remove_handler event handler [] = []
remove_handler event handler ((e, hs) ∷ table) =
    if text_eq e event
    then (e, remove_first handler hs) ∷ table
    else (e, hs) ∷ remove_handler event handler table

unfoldable pub remove_event : Text → List (Text × List ℕ) → List (Text × List ℕ)
remove_event event [] = []
remove_event event ((e, hs) ∷ table) =
    if text_eq e event then table else (e, hs) ∷ remove_event event table

module _ {P : Type 0} where
  unfoldable pub make_event_bus : EventBus P
  make_event_bus = record {
    handlers = [];
    is_buffering = false;
    buffer_depth = 0;
    buffered_events = [];
    tasks = [];
    calls = [];
  }

  unfoldable pub on : Text → ℕ → EventBus P → EventBus P
  unfolding append_handler
  on event handler b = record b { handlers = append_handler event handler b.handlers }

  unfoldable pub off : Text → ℕ → EventBus P → EventBus P
  unfolding remove_handler
  off event handler b = record b { handlers = remove_handler event handler b.handlers }

  unfoldable pub remove_all_listeners : Text → EventBus P → EventBus P
  unfolding remove_event
  remove_all_listeners event b = record b { handlers = remove_event event b.handlers }

  -- The calls of the event's handlers, in their order.
  unfoldable pub calls_of : List ℕ → P → List (ℕ × P)
  calls_of [] payload = []
  calls_of (h ∷ hs) payload = (h, payload) ∷ calls_of hs payload

  unfoldable pub emit_now : Text → P → EventBus P → EventBus P
  unfolding calls_of handlers_of
  emit_now event payload b = record b {
    calls = b.calls ++ calls_of (handlers_of event b.handlers) payload;
  }

  unfoldable pub emit : Text → P → EventBus P → EventBus P
  unfolding emit_now
  emit event payload b =
      if b.is_buffering
      then record b { buffered_events = b.buffered_events ++ (event, payload) ∷ [] }
      else emit_now event payload b

  unfoldable pub buffer : EventBus P → EventBus P
  buffer b = record b { buffer_depth = b.buffer_depth + 1; is_buffering = true }

  -- What a last `flush` does with the events that waited.
  unfoldable pub release : List (Text × P) → EventBus P → Bool × EventBus P
  release [] b = (false, b)
  release (e ∷ events) b = (true, record b { tasks = b.tasks ++ (e ∷ events) ∷ [] })

  -- The depth stops at 0.
  unfoldable pub flush : EventBus P → Bool × EventBus P
  unfolding release
  flush b =
      let left = record b { buffer_depth = b.buffer_depth - 1 } in
      let opened = record left { buffered_events = []; is_buffering = false } in
      if ltb 0 left.buffer_depth then (false, left) else release b.buffered_events opened

  unfoldable pub emit_all_now : List (Text × P) → EventBus P → EventBus P
  unfolding emit_now
  emit_all_now [] b = b
  emit_all_now ((event, payload) ∷ events) b = emit_all_now events (emit_now event payload b)

  -- The event loop runs the oldest task.
  unfoldable pub run_task : EventBus P → EventBus P
  unfolding emit_all_now
  run_task b = elim b.tasks [
    | [] ↦ b
    | events ∷ tasks ↦ emit_all_now events (record b { tasks = tasks })
  ]

  -- `create_buffered_function`: `work` between `buffer` and `flush`, also when it raises.
  unfoldable pub buffered :
      {A : Type 0} → (EventBus P → Result A × EventBus P) → EventBus P → Result A × EventBus P
  unfolding buffer flush
  buffered work b = let (result, done) = work (buffer b) in (result, (flush done).1)
