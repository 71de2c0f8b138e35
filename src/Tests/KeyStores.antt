-- ===== src/Tests/KeyStores.antt =====
-- The caching store and the transactions on stores, one of which fails.
use wassupweb.Prelude.{
  ℕ, zero, suc, ◌≡◌, refl, false, Option, none, some, List, [], ◌∷◌, Exception, Result, ok, err,
  runtime_error, key_error,
}
use wassupweb.Text.{Text, ascii, contains}
use wassupweb.Keys.{Store}
use wassupweb.Keys.KeyStore.{DataSet, KeyStore, Keeps, applied, in_memory, in_memory-Keeps}
use wassupweb.Keys.Cacheable.{CacheableStore}
use wassupweb.Keys.Cacheable.Calls.{Call, get, set, Serves}
use wassupweb.Keys.Cacheable.Refines.{calls-Serves}
use wassupweb.Keys.Transactions.Bodies.{read, write, Program, end, call}

abbrev no_keys : Store ℕ
no_keys = λ key_type id. none

-- A store in memory whose next calls of `set` fail, as many as the number says, and lose what they
-- were asked to write.
abbrev lost : {V : Type 0} → Option (Option V) → Option V → Option V
lost none old = old
lost (some value) old = none

abbrev flaky_set : DataSet ℕ → Store ℕ × ℕ → Result (Unit {0}) × (Store ℕ × ℕ)
flaky_set data_set (store, zero) = (ok tt, (applied data_set store, zero))
flaky_set data_set (store, suc failures) = (
  err (runtime_error "disk"),
  ((λ key_type id. lost (data_set key_type id) (store key_type id)), failures),
)

abbrev flaky : KeyStore (Store ℕ × ℕ) ℕ
flaky = record {
  get = λ key_type ids s. (in_memory ℕ).get key_type ids s.0;
  set = flaky_set;
  clear = λ s. ((λ key_type id. none), s.1);
}

flaky-Keeps : Keeps flaky (λ s. s.0)
flaky-Keeps = record {
  get_held = λ key_type ids s id. in_memory-Keeps.get_held key_type ids s.0 id;
  set_done = done;
  set_only = only;
  clear_held = λ s. refl;
}
  where
    done :
        (data_set : DataSet ℕ) (s : Store ℕ × ℕ)
        → (flaky_set data_set s).0 ≡ ok tt
        → (flaky_set data_set s).1.0 ≡ applied data_set s.0
    done data_set (store, zero) e = refl
    done data_set (store, suc failures) e = absurd (cc)

    only :
        (data_set : DataSet ℕ) (s : Store ℕ × ℕ) (x : Exception) (key_type id : Text)
        → (flaky_set data_set s).0 ≡ err x
        → data_set key_type id ≡ none
        → (flaky_set data_set s).1.0 key_type id ≡ s.0 key_type id
    only data_set (store, zero) x key_type id e absent = absurd (cc)
    only data_set (store, suc failures) x key_type id e absent = rw absent refl

abbrev sessions : Text
sessions = ascii "session"

abbrev ids : List Text
ids = ascii "a" ∷ ascii "b" ∷ []

-- A value is set, which fails, asked for, set again, and asked for again.
abbrev calls : List (Call ℕ)
calls =
    set 0 ((sessions, (ascii "a", some 1) ∷ []) ∷ [])
    ∷ get 1 2 sessions ids
    ∷ set 3 ((sessions, (ascii "a", none) ∷ []) ∷ [])
    ∷ get 4 5 sessions ids
    ∷ []

abbrev fresh_store : CacheableStore (Store ℕ × ℕ) ℕ
fresh_store = record { entries = λ key. none; below = (no_keys, 1) }

calls-Serves_example : Serves flaky 300 calls fresh_store (no_keys, 1) (λ key_type id. false)
unfolding contains
calls-Serves_example =
    calls-Serves flaky (λ s. s.0) flaky-Keeps 300 calls fresh_store (λ key_type id. false)
      ((refl, tt), (refl, ((refl, tt), (refl, tt)))) (λ t id value x ht sure e. absurd (cc))

abbrev first_known : List (Option ℕ) → Program ℕ ℕ
first_known [] = end (err (key_error))
first_known (none ∷ values) = first_known values
first_known (some v ∷ values) = end (ok v)

-- A value is written, and the body returns the first of those that are then found.
abbrev body : Program ℕ ℕ
body =
    call (write ((sessions, (ascii "a", some 1) ∷ []) ∷ []))
      (λ done. call (read sessions ids) first_known)
