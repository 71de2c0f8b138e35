-- ===== src/Keys/Transactions.antt =====
-- wassupweb/utils/auth_utils.py: `add_transaction_capability`. What `tx_context` holds is a value that
-- is passed on, `none` outside of a transaction; the store below is an argument. The locks by key and
-- type, the pauses between attempts and the log are left out.
pub mod Entries
pub mod Inside
pub mod Bodies
pub mod Settled
use wassupweb.Prelude.{
  ℕ, zero, suc, ◌+◌, Bool, true, false, Option, none, some, List, [], ◌∷◌, ◌==◌, if◌then◌else◌,
  Result, ◌>>◌, ok, err,
}
use wassupweb.Text.{Text, ascii, text_eq}
use wassupweb.Locks.{update}
use wassupweb.Keys.{put_all, deletions, validate_deletions, process_operations}
use wassupweb.Keys.KeyStore.{DataSet, KeyStore, entry_of, among}
use wassupweb.Keys.Cacheable.{dict_of}

-- The context of a transaction. `is_written` tells that `mutations` has a type, if only an empty one.
pub record Context (V : Type 0) : Type 0 where
  pub cache : DataSet V
  pub mutations : DataSet V
  pub is_written : Bool
  pub db_queries : ℕ

abbrev pub pre_key : Text
pre_key = ascii "pre-key"

module _ {V : Type 0} where
  unfoldable pub empty_context : Context V
  empty_context = record {
    cache = λ key_type id. none;
    mutations = λ key_type id. none;
    is_written = false;
    db_queries = 0;
  }

  -- The ids that are no key of the dictionary.
  unfoldable pub not_in : (Text → Option (Option V)) → List Text → List Text
  not_in cached [] = []
  not_in cached (id ∷ ids) =
      let rest = not_in cached ids in elim (cached id) [ none ↦ id ∷ rest | some value ↦ rest ]

  -- `dict.update` with values that may be `None`.
  unfoldable pub put_entries :
      List (Text × Option V) → (Text → Option (Option V)) → Text → Option (Option V)
  unfolding update
  put_entries [] table = table
  put_entries ((id, value) ∷ values) table = put_entries values (update id (some value) table)

  unfoldable pub set_type : Text → List (Text × Option V) → Context V → Context V
  unfolding put_entries update process_operations
  set_type key_type values ctx =
      let t =
        if text_eq key_type pre_key
        then process_operations true (λ id. none) values
            (record { cache = ctx.cache key_type; mutations = ctx.mutations key_type })
        else record {
          cache = put_entries values (ctx.cache key_type);
          mutations = put_entries values (ctx.mutations key_type);
        } in
      record ctx {
        cache = update key_type t.cache ctx.cache;
        mutations = update key_type t.mutations ctx.mutations;
        is_written = true;
      }

  -- `set` inside a transaction.
  unfoldable pub set_inside : List (Text × List (Text × Option V)) → Context V → Context V
  unfolding set_type
  set_inside [] ctx = ctx
  set_inside ((key_type, values) ∷ data_set) ctx =
      set_inside data_set (set_type key_type values ctx)

module _ {S V : Type 0} (k : KeyStore S V) where
  unfoldable pub fetch : Text → List Text → S → Context V → Context V
  unfolding put_all update
  fetch key_type [] s ctx = ctx
  fetch key_type (id ∷ ids) s ctx = record ctx {
    cache = update key_type (put_all (k.get key_type (id ∷ ids) s) (ctx.cache key_type)) ctx.cache;
    db_queries = ctx.db_queries + 1;
  }

  -- `get` inside a transaction: what its cache lacks is asked of the store.
  unfoldable pub get_inside :
      Text → List Text → S → Context V → (Text → Option (Option V)) × Context V
  unfolding fetch not_in among
  get_inside key_type ids s ctx =
      let ctx' = fetch key_type (not_in (ctx.cache key_type) ids) s ctx in
      (λ id. if among id ids then ctx'.cache key_type id else none, ctx')

  -- `set` outside of a transaction: the types that have something left, one after another.
  unfoldable pub normalized :
      S → List (Text × List (Text × Option V)) → List (Text × List (Text × Option V))
  unfolding validate_deletions deletions entry_of
  normalized s [] = []
  normalized s ((key_type, values) ∷ data_set) =
      let rest = normalized s data_set in
      let existing = λ (id : Text). entry_of id (k.get key_type (deletions values) s) in
      elim (if text_eq key_type pre_key then validate_deletions existing values else values) [
        | [] ↦ rest
        | (value ∷ values') ↦ (key_type, value ∷ values') ∷ rest
      ]

  unfoldable pub set_each : List (Text × List (Text × Option V)) → S → Result (Unit {0}) × S
  unfolding dict_of
  set_each [] s = (ok tt, s)
  set_each ((key_type, values) ∷ data_set) s =
      let (done, s') = k.set (dict_of ((key_type, values) ∷ [])) s in
      let (others, s'') = set_each data_set s' in (done >> others, s'')

  unfoldable pub set_outside : List (Text × List (Text × Option V)) → S → Result (Unit {0}) × S
  unfolding normalized set_each
  set_outside data_set s = set_each (normalized s data_set) s

  -- The attempts to write the mutations; the exception of the last one is raised.
  unfoldable pub commit : ℕ → DataSet V → S → Result (Unit {0}) × S
  commit zero mutations s = (ok tt, s)
  commit (suc attempts) mutations s =
      let (done, s') = k.set mutations s in
      let again = commit attempts mutations s' in
      elim done [ ok u ↦ (ok tt, s') | err e ↦ if attempts == 0 then (err e, s') else again ]

  unfoldable pub finish : {A : Type 0} → ℕ → Result A → Context V → S → Result A × S
  unfolding commit
  finish attempts (err e) ctx s = (err e, s)
  finish attempts (ok a) ctx s =
      let (done, s') = commit attempts ctx.mutations s in
      if ctx.is_written then (done >> ok a, s') else (ok a, s)

  -- `transaction`: inside another one `exec_fn` goes on with its context.
  unfoldable pub transaction :
      {A : Type 0}
      → ℕ
      → (S → Context V → Result A × Context V)
      → Option (Context V)
      → S
      → Result A × Option (Context V) × S
  unfolding finish empty_context
  transaction max_commit_retries exec_fn (some ctx) s =
      let (r, ctx') = exec_fn s ctx in (r, some ctx', s)
  transaction max_commit_retries exec_fn none s =
      let (r, ctx) = exec_fn s empty_context in
      let (r', s') = finish max_commit_retries r ctx s in (r', none, s')
