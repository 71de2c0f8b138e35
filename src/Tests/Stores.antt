-- ===== src/Tests/Stores.antt =====
-- Locks, debouncing and pre-keys.
use wassupweb.Prelude.{
  ℕ, ◌≡◌, refl, true, false, Option, none, some, List, [], ◌∷◌, arith, if◌then◌else◌, ok,
}
use wassupweb.Text.{Text, ascii, text_eq}
use wassupweb.Locks.{update, make_keyed_mutex, get_lock}
use wassupweb.Locks.Exclusion.{start, enter, IsCounted, Uses-IsCounted}
use wassupweb.Identity.{Context, TtlBoolCache, ttl_get, debounce, debounced, expiry_of}
use wassupweb.Identity.Debounce.{debounce-again}
use wassupweb.Keys.{
  Transaction, validate_deletions, updates, deletions, process_deletions, is_present,
}
use wassupweb.Keys.Deletion.{those_held, validate_deletions-existing, process_deletions_absent}

abbrev room : Text
room = ascii "1@g.us"

Uses-IsCounted_example : IsCounted (get_lock room make_keyed_mutex).1 (update room 1 (λ k. 0))
Uses-IsCounted_example =
    Uses-IsCounted (get_lock room make_keyed_mutex).1 (update room 1 (λ k. 0))
      (enter room make_keyed_mutex (λ k. 0) start)

abbrev context : Context
context = record {
  me_id = some (ascii "2@s.whatsapp.net");
  me_lid = none;
  session_exists = λ jid. true;
  assert_sessions = λ jid. ok tt;
}

abbrev empty_cache : TtlBoolCache
empty_cache = record { ttl_ms = 15000; expiries = [] }

debounce-again_example :
    debounce 2000 context room true (debounce 1000 context room false (some empty_cache)).1
    ≡ (debounced, (debounce 1000 context room false (some empty_cache)).1)
unfolding ttl_get expiry_of
debounce-again_example =
    debounce-again 1000 2000 context room false true empty_cache refl (omega arith)

-- The store has key "1" only.
abbrev stored : Text → Option ℕ
stored id = if text_eq id (ascii "1") then some 10 else none

abbrev requested : List (Text × Option ℕ)
requested = (ascii "1", none) ∷ (ascii "2", none) ∷ (ascii "3", some 30) ∷ []

validate_deletions-existing_example :
    (updates (validate_deletions stored requested) ≡ updates requested)
    × (deletions (validate_deletions stored requested) ≡ those_held stored (deletions requested))
validate_deletions-existing_example = validate_deletions-existing stored requested

abbrev transaction : Transaction ℕ
transaction = record {
  cache = λ id. if text_eq id (ascii "1") then some (some 10) else none;
  mutations = λ id. none;
}

process_deletions_absent_example :
    ((process_deletions true stored (ascii "1" ∷ ascii "2" ∷ []) transaction).cache (ascii "2")
      ≡ none)
    × ((process_deletions true stored (ascii "1" ∷ ascii "2" ∷ []) transaction).mutations
          (ascii "2")
        ≡ none)
unfolding is_present text_eq
process_deletions_absent_example =
    process_deletions_absent stored (ascii "1" ∷ ascii "2" ∷ []) (ascii "2") transaction refl
