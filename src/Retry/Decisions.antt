-- ===== src/Retry/Decisions.antt =====
-- What the retry manager answers after what it has been told.
use wassupweb.Prelude.{
  ℕ, ◌+◌, ◌≤◌, ◌<◌, ◌≡◌, refl, sym, ap, ◌∙◌, inl, inr, Bool, true, false, Option, none, some, arith,
  leb, Bool-cases, Option-cases,
}
use wassupweb.Text.{Text}
use wassupweb.Retry.Cache.{Cache, lookup, expiry, purge_expired, cache_set, cache_get, cache_delete}
use wassupweb.Retry.Lookup.{
  HasRoom, cache_get-set, cache_get-delete, purge_expired-fields, text_eq_refl,
}
use wassupweb.Retry.Manager.{
  MessageRetryManager, RecentMessage, RetryReason, add_recent_message, get_recent_message,
  remove_recent_message, key_of, should_recreate_session, increment_retry_count, get_retry_count,
  cancel_pending_phone_request, mark_retry_success, mark_retry_failed, forget, note_recreation,
  is_due, is_mac_error, key_to_string, or_zero, no_reason, recreate_session_timeout,
}

module _ {ℓ} {V : Type ℓ} where
  cache_get-fields :
      (now : ℕ) (key : Text) (c : Cache V)
      → ((cache_get now key c).1.ttl_ms ≡ c.ttl_ms)
        × ((cache_get now key c).1.max_items ≡ c.max_items)
  unfolding cache_get
  cache_get-fields now key c =
      let d = purge_expired now c in
      let same = purge_expired-fields now c in
      elim (Option-cases (lookup key d.store)) [
        | inl e ↦ (rw (cache_get, e) same.0, rw (cache_get, e) same.1)
        | inr ((v, exp), e) ↦ elim (Bool-cases (leb exp now)) [
          | inl old ↦ (rw (cache_get, e, old) same.0, rw (cache_get, e, old) same.1)
          | inr new ↦ (rw (cache_get, e, new) same.0, rw (cache_get, e, new) same.1)
        ]
      ]

some-absurd : (n : ℕ) → some n ≡ none → 1 ≤ n
some-absurd n e = absurd (cc)

-- The counters of a new manager: no limit, and a quarter of an hour.
counted :
    (now later : ℕ) (id : Text) (count : ℕ) (c : Cache ℕ)
    → c.max_items ≡ none
    → c.ttl_ms ≡ 900000
    → later < now + 900000
    → (cache_get later id (cache_set now id count (cache_get now id c).1)).0 ≡ some count
unfolding HasRoom expiry
counted now later id count c unlimited ttl soon =
    let (same_ttl, same_room) = cache_get-fields now id c in
    cache_get-set now later id count (cache_get now id c).1
      (λ m e. some-absurd m (sym e ∙ same_room ∙ unlimited)) (rw (same_ttl, ttl) soon)

module _ {M : Type 0} where
  -- The count that `increment_retry_count` returns is what `get_retry_count` answers in the next
  -- quarter of an hour, and the next increment in that time is one more. The counters have no limit
  -- and keep an entry for a quarter of an hour, as those of a new manager.
  pub get_retry_count-increment :
      (now later : ℕ) (id : Text) (m : MessageRetryManager M)
      → m.retry_counters.max_items ≡ none
      → m.retry_counters.ttl_ms ≡ 900000
      → later < now + 900000
      → ((get_retry_count later id (increment_retry_count now id m).1).0
          ≡ (increment_retry_count now id m).0)
        × ((increment_retry_count later id (increment_retry_count now id m).1).0
            ≡ (increment_retry_count now id m).0 + 1)
  unfolding get_retry_count increment_retry_count or_zero
  get_retry_count-increment now later id m unlimited ttl soon =
      let found =
        counted now later id (increment_retry_count now id m).0 m.retry_counters unlimited ttl
          soon in
      (ap or_zero found, ap (λ o. or_zero o + 1) found)

  -- A recreation at `now` is remembered for two hours.
  remembered :
      (now later : ℕ) (jid : Text) (m : MessageRetryManager M)
      → m.session_recreate_history.max_items ≡ none
      → m.session_recreate_history.ttl_ms ≡ 7200000
      → later < now + 7200000
      → (cache_get later jid (note_recreation now jid m).session_recreate_history).0 ≡ some now
  unfolding note_recreation HasRoom expiry
  remembered now later jid m unlimited ttl soon =
      cache_get-set now later jid now m.session_recreate_history
        (λ n e. some-absurd n (sym e ∙ unlimited)) (rw ttl soon)

  refused :
      (now later : ℕ) (jid : Text) (m : MessageRetryManager M)
      → m.session_recreate_history.max_items ≡ none
      → m.session_recreate_history.ttl_ms ≡ 7200000
      → 0 < now
      → later ≤ now + recreate_session_timeout
      → (should_recreate_session later jid true none (note_recreation now jid m)).0
        ≡ (false, no_reason)
  unfolding should_recreate_session is_due is_mac_error
  refused now later jid m unlimited ttl started soon =
      let found = remembered now later jid m unlimited ttl (omega arith) in
      let wait : is_due later (some now) ≡ false = ground arith in
      rw (should_recreate_session, found, wait) refl

  -- Whoever says yes notes the recreation.
  noted_when :
      (now : ℕ) (jid : Text) (has_session : Bool) (code : Option RetryReason)
      (m : MessageRetryManager M)
      → (should_recreate_session now jid has_session code m).0.0 ≡ true
      → (m' : MessageRetryManager M) × ((should_recreate_session now jid has_session code m).1
          ≡ note_recreation now jid m')
        × (m'.session_recreate_history.max_items ≡ m.session_recreate_history.max_items)
        × (m'.session_recreate_history.ttl_ms ≡ m.session_recreate_history.ttl_ms)
  unfolding should_recreate_session
  noted_when now jid false code m h = (m, refl, refl, refl)
  noted_when now jid true code m h = elim (Bool-cases (is_mac_error code)) [
    | inl e ↦ (m, rw (should_recreate_session, e) refl, refl, refl)
    | inr e ↦ elim (Bool-cases (is_due now (cache_get now jid m.session_recreate_history).0)) [
      | inl due ↦
          let same = cache_get-fields now jid m.session_recreate_history in
          (
            record m {
              session_recreate_history = (cache_get now jid m.session_recreate_history).1;
            },
            rw (should_recreate_session, e, due) refl,
            same.1,
            same.0,
          )
      | inr rest ↦
          let said : (should_recreate_session now jid true code m).0.0 ≡ false =
            rw (should_recreate_session, e, rest) refl in
          cc
    ]
  ]

  -- A session that was recreated at `now` is not recreated again in the next hour because of its age:
  -- if `should_recreate_session` said yes, whatever for, the same question about that address, with a
  -- session and without an error code, is answered with no. The history has no limit and keeps an
  -- entry for two hours, as that of a new manager, and the clock does not stand at 0.
  pub should_recreate_session-again :
      (now later : ℕ) (jid : Text) (has_session : Bool) (code : Option RetryReason)
      (m : MessageRetryManager M)
      → m.session_recreate_history.max_items ≡ none
      → m.session_recreate_history.ttl_ms ≡ 7200000
      → 0 < now
      → later ≤ now + recreate_session_timeout
      → (should_recreate_session now jid has_session code m).0.0 ≡ true
      → (should_recreate_session later jid true none
          (should_recreate_session now jid has_session code m).1).0
        ≡ (false, no_reason)
  should_recreate_session-again now later jid has_session code m unlimited ttl started soon
        recreated =
      let (m', noted, same_room, same_ttl) = noted_when now jid has_session code m recreated in
      ap (λ (x : MessageRetryManager M). (should_recreate_session later jid true none x).0) noted
      ∙ refused now later jid m' (same_room ∙ unlimited) (same_ttl ∙ ttl) started soon

  forget-fields :
      (id : Text) (m : MessageRetryManager M)
      → (forget id m).retry_counters ≡ cache_delete id m.retry_counters
  unfolding forget cancel_pending_phone_request remove_recent_message
  forget-fields id m = elim (Option-cases (key_of id m.message_key_index)) [
    | inl e ↦ rw (remove_recent_message, e) refl
    | inr (key, e) ↦ rw (remove_recent_message, e) refl
  ]

  -- A message that is marked as sent again or as failed counts no retries at any time after.
  pub get_retry_count-mark :
      (now : ℕ) (id : Text) (m : MessageRetryManager M)
      → ((get_retry_count now id (mark_retry_success id m)).0 ≡ 0)
        × ((get_retry_count now id (mark_retry_failed id m)).0 ≡ 0)
  unfolding get_retry_count or_zero mark_retry_success mark_retry_failed
  get_retry_count-mark now id m =
      let none_left = ap or_zero (cache_get-delete now id m.retry_counters) in
      (
        ap (λ (c : Cache ℕ). or_zero (cache_get now id c).0) (forget-fields id _) ∙ none_left,
        ap (λ (c : Cache ℕ). or_zero (cache_get now id c).0) (forget-fields id _) ∙ none_left,
      )

  forget-added :
      (now : ℕ) (to id : Text) (message : M) (m : MessageRetryManager M)
      → (forget id (add_recent_message now to id message m)).recent_messages_map
        ≡ cache_delete
            (key_to_string to id)
            (add_recent_message now to id message m).recent_messages_map
  unfolding forget cancel_pending_phone_request remove_recent_message add_recent_message key_of
  forget-added now to id message m = rw (remove_recent_message, text_eq_refl id) refl

  -- A message that was added and is then marked as failed is not found among the recent messages.
  pub get_recent_message-mark :
      (now later : ℕ) (to id : Text) (message : M) (m : MessageRetryManager M)
      → (get_recent_message later to id
          (mark_retry_failed id (add_recent_message now to id message m))).0
        ≡ none
  unfolding get_recent_message mark_retry_failed add_recent_message
  get_recent_message-mark now later to id message m =
      let counted_failed = record m {
        statistics = record m.statistics { failed_retries = m.statistics.failed_retries + 1 };
      } in
      ap (λ (c : Cache (RecentMessage M)). (cache_get later (key_to_string to id) c).0)
        (forget-added now to id message counted_failed)
      ∙ cache_get-delete later (key_to_string to id)
          (add_recent_message now to id message counted_failed).recent_messages_map
