-- ===== src/Tests/Services.antt =====
-- The retry manager, the app state hash and the event bus.
use wassupweb.Prelude.{
  ℕ, zero, suc, ◌+◌, ◌%◌, ◌≤◌, ◌<◌, ◌≡◌, refl, true, false, none, some, List, [], ◌∷◌, arith,
  IsByte, Bytes, All, length, replicate, length-replicate,
}
use wassupweb.Text.{Text, ascii}
use wassupweb.Retry.Cache.{Cache, expiry, cache_get, cache_set}
use wassupweb.Retry.Lookup.{HasRoom, cache_get-set}
use wassupweb.Retry.Manager.{
  MessageRetryManager, make_retry_manager, should_recreate_session, increment_retry_count,
  get_retry_count, mark_retry_failed, add_recent_message, get_recent_message, no_reason,
}
use wassupweb.Retry.Reachable.{start, add, Reachable-IsBounded}
use wassupweb.Retry.Decisions.{
  should_recreate_session-again, get_retry_count-increment, get_recent_message-mark,
}
use wassupweb.Hash.{IsSha512, base, subtract_then_add}
use wassupweb.Hash.Laws.{subtract_then_add-undo}
use wassupweb.Events.{buffer, flush, run_task}
use wassupweb.Events.Order.{emit_all, idle, run_task-flush}

abbrev manager : MessageRetryManager ℕ
manager = make_retry_manager 5

abbrev jid : Text
jid = ascii "1@s.whatsapp.net"

should_recreate_session-again_example :
    (should_recreate_session 5000 jid true none
      (should_recreate_session 1000 jid false none manager).1).0
    ≡ (false, no_reason)
unfolding make_retry_manager should_recreate_session
should_recreate_session-again_example =
    should_recreate_session-again 1000 5000 jid false none manager refl refl (omega arith)
      (omega arith) refl

get_retry_count-increment_example :
    ((get_retry_count 5000 jid (increment_retry_count 1000 jid manager).1).0
      ≡ (increment_retry_count 1000 jid manager).0)
    × ((increment_retry_count 5000 jid (increment_retry_count 1000 jid manager).1).0
        ≡ (increment_retry_count 1000 jid manager).0 + 1)
unfolding make_retry_manager
get_retry_count-increment_example =
    get_retry_count-increment 1000 5000 jid manager refl refl (omega arith)

get_recent_message-mark_example :
    (get_recent_message 5000 jid
      (ascii "A1")
      (mark_retry_failed (ascii "A1") (add_recent_message 1000 jid (ascii "A1") 3 manager))).0
    ≡ none
get_recent_message-mark_example = get_recent_message-mark 1000 5000 jid (ascii "A1") 3 manager

Reachable-IsBounded_example :
    length (add_recent_message 1000 jid (ascii "A1") 3 manager).recent_messages_map.store ≤ 512
Reachable-IsBounded_example =
    Reachable-IsBounded (add_recent_message 1000 jid (ascii "A1") 3 manager)
      (add 1000 jid (ascii "A1") 3 manager (start 5))

abbrev small_cache : Cache ℕ
small_cache = record { max_items = some 1; ttl_ms = 100; store = (ascii "b", 1, 2000) ∷ [] }

roomy : HasRoom small_cache
unfolding HasRoom
roomy m e = at_least (some-same e)
  where
    some-same : some 1 ≡ some m → 1 ≡ m
    some-same e = cc

    at_least : 1 ≡ m → 1 ≤ m
    at_least e = omega arith

cache_get-set_example :
    (cache_get 1050 (ascii "a") (cache_set 1000 (ascii "a") 7 small_cache)).0 ≡ some 7
unfolding expiry
cache_get-set_example = cache_get-set 1000 1050 (ascii "a") 7 small_cache roomy (omega arith)

abbrev sha : Bytes → Bytes
sha message = replicate 64 (length message % 256)

sha_is : IsSha512 sha
sha_is = record {
  size = λ message. length-replicate 64 (length message % 256);
  in_range = λ message. all_bytes 64 (length message % 256) (omega arith);
}
  where
    all_bytes : (n b : ℕ) → b < 256 → All IsByte (replicate n b)
    all_bytes zero b h = tt
    all_bytes (suc n) b h = (h, all_bytes n b h)

subtract_then_add-undo_example :
    subtract_then_add sha
      (subtract_then_add sha (1 ∷ 2 ∷ []) [] ((5 ∷ []) ∷ (6 ∷ 7 ∷ []) ∷ []))
      ((5 ∷ []) ∷ (6 ∷ 7 ∷ []) ∷ [])
      []
    ≡ base (1 ∷ 2 ∷ [])
subtract_then_add-undo_example =
    subtract_then_add-undo sha sha_is (1 ∷ 2 ∷ []) ((5 ∷ []) ∷ (6 ∷ 7 ∷ []) ∷ [])
      (omega arith, (omega arith, tt))

abbrev table : List (Text × List ℕ)
table = (ascii "open", 1 ∷ 2 ∷ []) ∷ []

abbrev events : List (Text × ℕ)
events = (ascii "open", 10) ∷ (ascii "shut", 20) ∷ []

run_task-flush_example :
    ((flush (emit_all events (buffer (idle table [])))).0 ≡ true)
    × ((flush (emit_all events (buffer (idle table [])))).1.calls ≡ [])
    × (run_task (flush (emit_all events (buffer (idle table [])))).1
        ≡ emit_all events (idle table []))
run_task-flush_example = run_task-flush (ascii "open") 10 ((ascii "shut", 20) ∷ []) table []
