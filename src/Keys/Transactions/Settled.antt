-- ===== src/Keys/Transactions/Settled.antt =====
-- How a transaction ends: committed in whole, given up by its body, or with a commit that failed.
use wassupweb.Prelude.{◌≡◌, ◌⊎◌, none, Exception, Result, ok, err}
use wassupweb.Text.{Text}
use wassupweb.Keys.{Store}
use wassupweb.Keys.KeyStore.{DataSet, KeyStore, Keeps, applied}

module _ {S V : Type 0} (k : KeyStore S V) (held : S → Store V) (keeps : Keeps k held) where
  -- What attempts to write lead to: the mutations are there, or an exception is raised and what they do
  -- not ask for has not changed.
  abbrev Ends : DataSet V → S → Result (Unit {0}) × S → Type 0
  Ends mutations s r =
      ((r.0 ≡ ok tt) × (held r.1 ≡ applied mutations (held s)))
      ⊎ ((e : Exception) × (r.0 ≡ err e)
          × ((t id : Text) → mutations t id ≡ none → held r.1 t id ≡ held s t id))

  -- How a transaction ends, by what its body gives on the store itself: it is committed in whole; or the
  -- body raises, and so does the transaction, in the state in which it began; or no attempt to
  -- commit succeeds, an exception is raised, and the entries that are left alone are as they were.
  abbrev pub Settles :
      {A : Type 0} → Result A → Store V → (Text → Text → Type 0) → S → Result A × S → Type 0
  Settles {A} outcome now left s r =
      ((a : A) × (outcome ≡ ok a) × (r.0 ≡ ok a) × (held r.1 ≡ now))
      ⊎ (((e : Exception) × (outcome ≡ err e) × (r.0 ≡ err e) × (r.1 ≡ s))
          ⊎ ((a : A) × (e : Exception) × (outcome ≡ ok a)
              × (r.0 ≡ err e)
              × ((t id : Text) → left t id → held r.1 t id ≡ held s t id)))
