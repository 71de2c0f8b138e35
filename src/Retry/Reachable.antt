-- ===== src/Retry/Reachable.antt =====
-- Every sequence of calls of the retry manager.
use wassupweb.Prelude.{
  ℕ, ◌≤◌, ◌≡◌, refl, inl, inr, Bool, true, false, Option, arith, Bool-cases, Option-cases, length,
}
use wassupweb.Text.{Text}
use wassupweb.Retry.Cache.{cache_get}
use wassupweb.Retry.Manager.{
  MessageRetryManager, RetryReason, make_retry_manager, add_recent_message, get_recent_message,
  remove_recent_message, key_of, should_recreate_session, increment_retry_count, get_retry_count,
  has_exceeded_max_retries, schedule_phone_request, run_phone_request, cancel_pending_phone_request,
  mark_retry_success, mark_retry_failed, forget, note_recreation, is_due, is_mac_error,
  key_to_string,
}
use wassupweb.Retry.Bounds.{
  IsBounded, IsBounded-cache_set, IsBounded-cache_get, IsBounded-cache_delete,
}

module _ {M : Type 0} where
  -- The managers that calls lead to, from a new one.
  pub data Reachable : MessageRetryManager M → Type 0 where
    start : (limit : ℕ) → Reachable (make_retry_manager limit)
    add :
        (now : ℕ) (to id : Text) (message : M) (m : MessageRetryManager M)
        → Reachable m
        → Reachable (add_recent_message now to id message m)
    get_recent :
        (now : ℕ) (to id : Text) (m : MessageRetryManager M)
        → Reachable m
        → Reachable (get_recent_message now to id m).1
    recreate :
        (now : ℕ) (jid : Text) (has_session : Bool) (code : Option RetryReason)
        (m : MessageRetryManager M)
        → Reachable m
        → Reachable (should_recreate_session now jid has_session code m).1
    increment :
        (now : ℕ) (id : Text) (m : MessageRetryManager M)
        → Reachable m
        → Reachable (increment_retry_count now id m).1
    get_count :
        (now : ℕ) (id : Text) (m : MessageRetryManager M)
        → Reachable m
        → Reachable (get_retry_count now id m).1
    exceeded :
        (now : ℕ) (id : Text) (m : MessageRetryManager M)
        → Reachable m
        → Reachable (has_exceeded_max_retries now id m).1
    succeed :
        (id : Text) (m : MessageRetryManager M) → Reachable m → Reachable (mark_retry_success id m)
    fail :
        (id : Text) (m : MessageRetryManager M) → Reachable m → Reachable (mark_retry_failed id m)
    schedule :
        (id : Text) (m : MessageRetryManager M)
        → Reachable m
        → Reachable (schedule_phone_request id m)
    run : (id : Text) (m : MessageRetryManager M) → Reachable m → Reachable (run_phone_request id m)
    cancel :
        (id : Text) (m : MessageRetryManager M)
        → Reachable m
        → Reachable (cancel_pending_phone_request id m)
    drop_recent :
        (id : Text) (m : MessageRetryManager M)
        → Reachable m
        → Reachable (remove_recent_message id m)

  IsBounded-remove_recent_message :
      (id : Text) (m : MessageRetryManager M)
      → IsBounded 512 m.recent_messages_map
      → IsBounded 512 (remove_recent_message id m).recent_messages_map
  unfolding remove_recent_message
  IsBounded-remove_recent_message id m b = elim (Option-cases (key_of id m.message_key_index)) [
    | inl e ↦ rw (remove_recent_message, e) b
    | inr (key, e) ↦
        rw (remove_recent_message, e) (IsBounded-cache_delete 512 key m.recent_messages_map b)
  ]

  recreate_same :
      (now : ℕ) (jid : Text) (has_session : Bool) (code : Option RetryReason)
      (m : MessageRetryManager M)
      → (should_recreate_session now jid has_session code m).1.recent_messages_map
        ≡ m.recent_messages_map
  unfolding should_recreate_session note_recreation
  recreate_same now jid false code m = refl
  recreate_same now jid true code m = elim (Bool-cases (is_mac_error code)) [
    | inl e ↦ rw (should_recreate_session, e) refl
    | inr e ↦ elim (Bool-cases (is_due now (cache_get now jid m.session_recreate_history).0)) [
      | inl due ↦ rw (should_recreate_session, e, due) refl
      | inr rest ↦ rw (should_recreate_session, e, rest) refl
    ]
  ]

  bounded : {m : MessageRetryManager M} → Reachable m → IsBounded 512 m.recent_messages_map
  unfolding make_retry_manager add_recent_message get_recent_message increment_retry_count
      get_retry_count has_exceeded_max_retries mark_retry_success mark_retry_failed forget
      cancel_pending_phone_request schedule_phone_request run_phone_request
  bounded (start limit) = record { limit = refl; size = omega arith }
  bounded (add now to id message m r) =
      IsBounded-cache_set 512 now (key_to_string to id)
        (record { message = message; timestamp = now }) m.recent_messages_map (bounded r)
  bounded (get_recent now to id m r) =
      IsBounded-cache_get 512 now (key_to_string to id) m.recent_messages_map (bounded r)
  bounded (recreate now jid has_session code m r) =
      rw (recreate_same now jid has_session code m) (bounded r)
  bounded (increment now id m r) = bounded r
  bounded (get_count now id m r) = bounded r
  bounded (exceeded now id m r) = bounded r
  bounded (succeed id m r) = IsBounded-remove_recent_message id _ (bounded r)
  bounded (fail id m r) = IsBounded-remove_recent_message id _ (bounded r)
  bounded (schedule id m r) = bounded r
  bounded (run id m r) = bounded r
  bounded (cancel id m r) = bounded r
  bounded (drop_recent id m r) = IsBounded-remove_recent_message id m (bounded r)

  -- Whatever was called, and in whatever order, there are at most 512 recent messages.
  pub Reachable-IsBounded :
      (m : MessageRetryManager M) → Reachable m → length m.recent_messages_map.store ≤ 512
  Reachable-IsBounded m r = (bounded r).size
