-- ===== src/Retry/Manager.antt =====
-- `MessageRetryManager` of wassupweb/utils/message_retry_manager.py. A timer is modelled by the
-- message that it belongs to; logging is left out.
use wassupweb.Prelude.{
  ℕ, ◌+◌, Bool, true, false, not, ◌||◌, Option, none, some, List, [], ◌∷◌, ◌++◌, ltb, leb, ◌==◌,
  if◌then◌else◌, get_elem?, ok, err,
}
use wassupweb.Text.{Text, text_eq}
use wassupweb.Text.Number.{ℤ, pos, negsuc, py_int}
use wassupweb.Retry.Cache.{Cache, cache_set, cache_get, cache_delete}

pub data RetryReason : Type 0 where
  unknown_error signal_error_no_session signal_error_invalid_key : RetryReason
  signal_error_invalid_key_id signal_error_invalid_message : RetryReason
  signal_error_invalid_signature signal_error_future_message signal_error_bad_mac : RetryReason
  signal_error_invalid_session signal_error_invalid_msg_key : RetryReason
  bad_broadcast_ephemeral_setting unknown_companion_no_prekey : RetryReason
  adv_failure status_revoke_delay : RetryReason

-- The codes, from 0 on.
abbrev pub retry_reasons : List RetryReason
retry_reasons =
    unknown_error ∷ signal_error_no_session ∷ signal_error_invalid_key ∷ signal_error_invalid_key_id
    ∷ signal_error_invalid_message ∷ signal_error_invalid_signature ∷ signal_error_future_message
    ∷ signal_error_bad_mac ∷ signal_error_invalid_session ∷ signal_error_invalid_msg_key
    ∷ bad_broadcast_ephemeral_setting ∷ unknown_companion_no_prekey ∷ adv_failure
    ∷ status_revoke_delay ∷ []

-- `error_code in MAC_ERROR_CODES`
unfoldable pub is_mac_error : Option RetryReason → Bool
is_mac_error (some signal_error_invalid_message) = true
is_mac_error (some signal_error_bad_mac) = true
is_mac_error _ = false

-- A code that is a number but not in the list is `UnknownError`.
unfoldable pub reason_of : ℤ → RetryReason
reason_of (pos n) = elim (get_elem? retry_reasons n) [ none ↦ unknown_error | some r ↦ r ]
reason_of (negsuc n) = unknown_error

unfoldable pub parse_retry_error_code : Option Text → Option RetryReason
unfolding reason_of
parse_retry_error_code none = none
parse_retry_error_code (some []) = none
parse_retry_error_code (some (c ∷ attr)) = elim (py_int (c ∷ attr)) [
  | ok code ↦ some (reason_of code)
  | err e ↦ none
]

pub record RecentMessage (M : Type 0) : Type 0 where
  pub message : M
  pub timestamp : ℕ

pub record Statistics : Type 0 where
  pub total_retries : ℕ
  pub successful_retries : ℕ
  pub failed_retries : ℕ
  pub media_retries : ℕ
  pub session_recreations : ℕ
  pub phone_requests : ℕ

pub record MessageRetryManager (M : Type 0) : Type 0 where
  pub max_msg_retry_count : ℕ
  pub recent_messages_map : Cache (RecentMessage M)
  pub message_key_index : List (Text × Text)
  pub session_recreate_history : Cache ℕ
  pub retry_counters : Cache ℕ
  pub pending_phone_requests : List Text
  pub statistics : Statistics

-- RECREATE_SESSION_TIMEOUT
abbrev pub recreate_session_timeout : ℕ
recreate_session_timeout = 3600000

-- The answer's reason; the constructors stand for its texts.
pub data Reason : Type 0 where
  no_session : Reason
  mac_error : RetryReason → Reason
  over_an_hour : Reason
  no_reason : Reason

unfoldable pub key_to_string : Text → Text → Text
key_to_string to id = to ++ 0 ∷ id

-- `message_key_index`: what is there for an id, and the index without it.
unfoldable pub key_of : Text → List (Text × Text) → Option Text
key_of id [] = none
key_of id ((i, key) ∷ index) = if text_eq i id then some key else key_of id index

unfoldable pub without : Text → List (Text × Text) → List (Text × Text)
without id [] = []
without id ((i, key) ∷ index) =
    if text_eq i id then without id index else (i, key) ∷ without id index

-- `not prev_time or now - int(prev_time) > RECREATE_SESSION_TIMEOUT`
unfoldable pub is_due : ℕ → Option ℕ → Bool
is_due now none = true
is_due now (some prev) = prev == 0 || ltb (prev + recreate_session_timeout) now

unfoldable pub without_timer : Text → List Text → List Text
without_timer id [] = []
without_timer id (i ∷ timers) =
    if text_eq i id then without_timer id timers else i ∷ without_timer id timers

-- `found or 0`
unfoldable pub or_zero : Option ℕ → ℕ
or_zero none = 0
or_zero (some n) = n

module _ {M : Type 0} where
  unfoldable pub make_retry_manager : ℕ → MessageRetryManager M
  make_retry_manager max_msg_retry_count = record {
    max_msg_retry_count = max_msg_retry_count;
    recent_messages_map = record { max_items = some 512; ttl_ms = 300000; store = [] };
    message_key_index = [];
    session_recreate_history = record { max_items = none; ttl_ms = 7200000; store = [] };
    retry_counters = record { max_items = none; ttl_ms = 900000; store = [] };
    pending_phone_requests = [];
    statistics = record {
      total_retries = 0;
      successful_retries = 0;
      failed_retries = 0;
      media_retries = 0;
      session_recreations = 0;
      phone_requests = 0;
    };
  }

  unfoldable pub add_recent_message :
      ℕ → Text → Text → M → MessageRetryManager M → MessageRetryManager M
  unfolding without
  add_recent_message now to id message m =
      let key = key_to_string to id in
      record m {
        recent_messages_map =
            cache_set now key (record { message = message; timestamp = now }) m.recent_messages_map;
        message_key_index = (id, key) ∷ without id m.message_key_index;
      }

  unfoldable pub get_recent_message :
      ℕ → Text → Text → MessageRetryManager M → Option (RecentMessage M) × MessageRetryManager M
  get_recent_message now to id m =
      let (found, c) = cache_get now (key_to_string to id) m.recent_messages_map in
      (found, record m { recent_messages_map = c })

  unfoldable pub remove_recent_message : Text → MessageRetryManager M → MessageRetryManager M
  unfolding key_of without
  remove_recent_message id m =
      let popped = record m { message_key_index = without id m.message_key_index } in
      elim (key_of id m.message_key_index) [
        | none ↦ popped
        | some key ↦ record popped { recent_messages_map = cache_delete key m.recent_messages_map }
      ]

  -- The session is recreated at `now`.
  unfoldable pub note_recreation : ℕ → Text → MessageRetryManager M → MessageRetryManager M
  note_recreation now jid m = record m {
    session_recreate_history = cache_set now jid now m.session_recreate_history;
    statistics = record m.statistics { session_recreations = m.statistics.session_recreations + 1 };
  }

  unfoldable pub should_recreate_session :
      ℕ
      → Text
      → Bool
      → Option RetryReason
      → MessageRetryManager M
      → (Bool × Reason) × MessageRetryManager M
  unfolding note_recreation is_due
  should_recreate_session now jid has_session error_code m =
      let (prev, history) = cache_get now jid m.session_recreate_history in
      let read = record m { session_recreate_history = history } in
      if not has_session
      then ((true, no_session), note_recreation now jid m)
      else if is_mac_error error_code
      then (
        (true, elim error_code [ none ↦ no_reason | some r ↦ mac_error r ]),
        note_recreation now jid m,
      )
      else if is_due now prev
      then ((true, over_an_hour), note_recreation now jid read)
      else ((false, no_reason), read)

  -- `int(self.retry_counters.get(message_id) or 0)`
  unfoldable pub get_retry_count : ℕ → Text → MessageRetryManager M → ℕ × MessageRetryManager M
  unfolding or_zero
  get_retry_count now id m =
      let (found, c) = cache_get now id m.retry_counters in
      (or_zero found, record m { retry_counters = c })

  unfoldable pub increment_retry_count :
      ℕ → Text → MessageRetryManager M → ℕ × MessageRetryManager M
  unfolding get_retry_count
  increment_retry_count now id m =
      let (count, read) = get_retry_count now id m in
      (
        count + 1,
        record read {
          retry_counters = cache_set now id (count + 1) read.retry_counters;
          statistics = record m.statistics { total_retries = m.statistics.total_retries + 1 };
        },
      )

  unfoldable pub has_exceeded_max_retries :
      ℕ → Text → MessageRetryManager M → Bool × MessageRetryManager M
  unfolding get_retry_count
  has_exceeded_max_retries now id m =
      let (count, read) = get_retry_count now id m in (leb m.max_msg_retry_count count, read)

  unfoldable pub cancel_pending_phone_request : Text → MessageRetryManager M → MessageRetryManager M
  unfolding without_timer
  cancel_pending_phone_request id m = record m {
    pending_phone_requests = without_timer id m.pending_phone_requests;
  }

  unfoldable pub schedule_phone_request : Text → MessageRetryManager M → MessageRetryManager M
  unfolding cancel_pending_phone_request
  schedule_phone_request id m =
      let c = cancel_pending_phone_request id m in
      record c { pending_phone_requests = id ∷ c.pending_phone_requests }

  -- The timer runs out, before the callback is called.
  unfoldable pub run_phone_request : Text → MessageRetryManager M → MessageRetryManager M
  unfolding without_timer
  run_phone_request id m = record m {
    pending_phone_requests = without_timer id m.pending_phone_requests;
    statistics = record m.statistics { phone_requests = m.statistics.phone_requests + 1 };
  }

  -- What both endings have in common.
  unfoldable pub forget : Text → MessageRetryManager M → MessageRetryManager M
  unfolding cancel_pending_phone_request remove_recent_message
  forget id m = remove_recent_message id (
      cancel_pending_phone_request id
        (record m { retry_counters = cache_delete id m.retry_counters }))

  unfoldable pub mark_retry_success : Text → MessageRetryManager M → MessageRetryManager M
  unfolding forget
  mark_retry_success id m = forget id (record m {
    statistics = record m.statistics { successful_retries = m.statistics.successful_retries + 1 };
  })

  unfoldable pub mark_retry_failed : Text → MessageRetryManager M → MessageRetryManager M
  unfolding forget
  mark_retry_failed id m = forget id (record m {
    statistics = record m.statistics { failed_retries = m.statistics.failed_retries + 1 };
  })
