-- ===== src/Events/Order.antt =====
-- Events that wait are delivered later, in the order in which they were emitted.
use wassupweb.Prelude.{
  ℕ, ◌+◌, ◌-◌, ◌<◌, ◌≡◌, refl, sym, ap, ◌∙◌, Bool, true, false, List, [], ◌∷◌, ◌++◌, arith, ltb,
}
use mathlib.Core.List.{append_assoc, append-nil}
use wassupweb.Text.{Text}
use wassupweb.Events.{EventBus, emit, emit_now, emit_all_now, buffer, flush, release, run_task}

module _ {P : Type 0} where
  -- Several events, one after another.
  unfoldable pub emit_all : List (Text × P) → EventBus P → EventBus P
  unfolding emit
  emit_all [] b = b
  emit_all ((event, payload) ∷ events) b = emit_all events (emit event payload b)

  -- A bus that buffers, and one with nothing buffered and no task.
  waiting : List (Text × List ℕ) → ℕ → List (Text × P) → List (ℕ × P) → EventBus P
  waiting hs depth events calls = record {
    handlers = hs;
    is_buffering = true;
    buffer_depth = depth;
    buffered_events = events;
    tasks = [];
    calls = calls;
  }

  unfoldable pub idle : List (Text × List ℕ) → List (ℕ × P) → EventBus P
  idle hs calls = record {
    handlers = hs;
    is_buffering = false;
    buffer_depth = 0;
    buffered_events = [];
    tasks = [];
    calls = calls;
  }

  emit_all-waiting :
      (events before : List (Text × P)) (hs : List (Text × List ℕ)) (depth : ℕ)
      (calls : List (ℕ × P))
      → emit_all events (waiting hs depth before calls) ≡ waiting hs depth (before ++ events) calls
  unfolding emit_all emit waiting
  emit_all-waiting [] before hs depth calls =
      ap (λ (x : List (Text × P)). waiting hs depth x calls) (sym (append-nil before))
  emit_all-waiting ((event, payload) ∷ events) before hs depth calls =
      emit_all-waiting events (before ++ (event, payload) ∷ []) hs depth calls
      ∙ ap (λ (x : List (Text × P)). waiting hs depth x calls)
          (append_assoc before ((event, payload) ∷ []) events)

  emit_all-idle :
      (events : List (Text × P)) (hs : List (Text × List ℕ)) (calls : List (ℕ × P))
      → emit_all events (idle hs calls) ≡ emit_all_now events (idle hs calls)
  unfolding emit_all emit emit_all_now emit_now idle
  emit_all-idle [] hs calls = refl
  emit_all-idle ((event, payload) ∷ events) hs calls = emit_all-idle events hs _

  -- Events that are emitted between `buffer` and the `flush` that ends the buffering make no call
  -- before the task that `flush` starts runs, and then the same calls in the same order as if they had
  -- been emitted one after another with no buffering. Before, nothing was buffered and no task was
  -- waiting.
  pub run_task-flush :
      (event : Text) (payload : P) (events : List (Text × P)) (hs : List (Text × List ℕ))
      (calls : List (ℕ × P))
      → ((flush (emit_all ((event, payload) ∷ events) (buffer (idle hs calls)))).0 ≡ true)
        × ((flush (emit_all ((event, payload) ∷ events) (buffer (idle hs calls)))).1.calls ≡ calls)
        × (run_task (flush (emit_all ((event, payload) ∷ events) (buffer (idle hs calls)))).1
            ≡ emit_all ((event, payload) ∷ events) (idle hs calls))
  unfolding idle buffer flush release run_task waiting
  run_task-flush event payload events hs calls =
      let kept = emit_all-waiting ((event, payload) ∷ events) [] hs 1 calls in
      (
        ap (λ (b : EventBus P). (flush b).0) kept,
        ap (λ (b : EventBus P). (flush b).1.calls) kept,
        ap (λ (b : EventBus P). run_task (flush b).1) kept
            ∙ sym (emit_all-idle ((event, payload) ∷ events) hs calls),
      )

  -- A `flush` inside another buffered function ends nothing: events still wait, and it says no.
  pub flush-inner :
      (b : EventBus P) → 0 < b.buffer_depth → b.is_buffering ≡ true → flush (buffer b) ≡ (false, b)
  unfolding flush buffer
  flush-inner b deep buffering =
      let same : b.buffer_depth + 1 - 1 ≡ b.buffer_depth = omega arith in
      let positive : ltb 0 b.buffer_depth ≡ true = ground arith in
      rw (same, positive)
        (ap (λ (t : Bool). (false, record b { is_buffering = t })) (sym buffering))
