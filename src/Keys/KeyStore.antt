-- ===== src/Keys/KeyStore.antt =====
-- `SignalKeyStore` of wassupweb/types/auth.py: the operations that the caching store and the transactions
-- call on the store below them, what is asked of these, and the store in memory as one that does it.
use wassupweb.Prelude.{
  ◌≡◌, refl, sym, ap, ◌∙◌, inl, inr, Bool, true, false, ◌||◌, Option, none, some, List, [], ◌∷◌,
  map, arith, if◌then◌else◌, Option-cases, Exception, Result, ok, err,
}
use wassupweb.Text.{Text, text_eq, text_eq_iff}
use wassupweb.Retry.Lookup.{text_eq_refl}
use wassupweb.Keys.{Store, store_get}

-- `SignalDataSet`: what is asked for a type and an id: nothing, `None` or a value.
abbrev pub DataSet : Type 0 → Type 0
DataSet V = Text → Text → Option (Option V)

-- The operations of a store with states in `S`. A `set` may fail. An answer of `get` has no `None` in
-- it, as those of the store in memory.
pub record KeyStore (S V : Type 0) : Type 0 where
  pub get : Text → List Text → S → List (Text × V)
  pub set : DataSet V → S → Result (Unit {0}) × S
  pub clear : S → S

-- `key in ids`
unfoldable pub among : Text → List Text → Bool
among id [] = false
among id (x ∷ ids) = text_eq x id || among id ids

module _ {V : Type 0} where
  -- An entry of a dictionary that was filled with the items one after another.
  unfoldable pub entry_of : Text → List (Text × V) → Option V
  entry_of id [] = none
  entry_of id ((k, v) ∷ items) = elim (entry_of id items) [
    | some w ↦ some w
    | none ↦ if text_eq k id then some v else none
  ]

  -- `None` takes the entry away.
  unfoldable pub applied : DataSet V → Store V → Store V
  applied data_set store key_type id = elim (data_set key_type id) [
    | none ↦ store key_type id
    | some value ↦ value
  ]

pub map-among :
    {A : Type 0} (f g : Text → A) (ids : List Text)
    → ((id : Text) → among id ids ≡ true → f id ≡ g id)
    → map f ids ≡ map g ids
unfolding among
map-among f g [] h = refl
map-among f g (x ∷ ids) h =
    rw (h x (rw (text_eq_refl x)), map-among f g ids (λ id e. h id (later id e)))
  where
    later : (id : Text) → among id ids ≡ true → (text_eq x id || among id ids) ≡ true
    later id e = ground arith

-- What a store does, told by what it holds: `get` answers the ids that are there, a `set` that returns
-- has done what it was asked for, and one that raises may have done any part of it, but has left
-- alone what it was not asked for.
pub record Keeps {S V : Type 0} (k : KeyStore S V) (held : S → Store V) : Type 0 where
  pub get_held :
      (key_type : Text) (ids : List Text) (s : S) (id : Text)
      → entry_of id (k.get key_type ids s) ≡ (if among id ids then held s key_type id else none)
  pub set_done :
      (data_set : DataSet V) (s : S)
      → (k.set data_set s).0 ≡ ok tt
      → held (k.set data_set s).1 ≡ applied data_set (held s)
  pub set_only :
      (data_set : DataSet V) (s : S) (e : Exception) (key_type id : Text)
      → (k.set data_set s).0 ≡ err e
      → data_set key_type id ≡ none
      → held (k.set data_set s).1 key_type id ≡ held s key_type id
  pub clear_held : (s : S) → held (k.clear s) ≡ λ key_type id. none

-- `InMemorySignalKeyStore`, which never fails.
abbrev pub in_memory : (V : Type 0) → KeyStore (Store V) V
in_memory V = record {
  get = store_get;
  set = λ data_set store. (ok tt, applied data_set store);
  clear = λ store key_type id. none;
}

module _ {V : Type 0} where
  same_entry :
      (key_type x id : Text) (store : Store V)
      → text_eq x id ≡ true
      → store key_type x ≡ store key_type id
  same_entry key_type x id store e = ap (store key_type) ((text_eq_iff x id).0 e)

  entry_of-cons :
      (id x : Text) (v : V) (items : List (Text × V)) (w : Option V)
      → entry_of id items ≡ w
      → entry_of id ((x, v) ∷ items)
        ≡ elim w [ some u ↦ some u | none ↦ if text_eq x id then some v else none ]
  unfolding entry_of
  entry_of-cons id x v items w e = rw e

  absent :
      (same later : Bool) (held : Option V)
      → (same ≡ true → none ≡ held)
      → (if later then held else none) ≡ (if same || later then held else none)
  absent true true held h = refl
  absent true false held h = h refl
  absent false later held h = refl

  present :
      (same later : Bool) (v : V) (held : Option V)
      → (same ≡ true → some v ≡ held)
      → elim (if later then held else none) [
        | some u ↦ some u
        | none ↦ if same then some v else none
      ]
        ≡ (if same || later then held else none)
  present true true v none h = h refl
  present true true v (some w) h = refl
  present true false v held h = h refl
  present false true v none h = refl
  present false true v (some w) h = refl
  present false false v held h = refl

  entry_of-store_get :
      (key_type : Text) (ids : List Text) (store : Store V) (id : Text)
      → entry_of id (store_get key_type ids store)
        ≡ (if among id ids then store key_type id else none)
  unfolding store_get among entry_of
  entry_of-store_get key_type [] store id = refl
  entry_of-store_get key_type (x ∷ ids) store id = elim (Option-cases (store key_type x)) [
    | inl e ↦
        rw (store_get, e)
          (entry_of-store_get key_type ids store id
            ∙ absent (text_eq x id) (among id ids) (store key_type id)
                (λ same. sym e ∙ same_entry key_type x id store same))
    | inr (v, e) ↦
        rw (store_get, e)
          (entry_of-cons id x v (store_get key_type ids store) _
              (entry_of-store_get key_type ids store id)
            ∙ present (text_eq x id) (among id ids) v (store key_type id)
                (λ same. sym e ∙ same_entry key_type x id store same))
  ]

  pub in_memory-Keeps : Keeps (in_memory V) (λ (store : Store V). store)
  in_memory-Keeps = record {
    get_held = entry_of-store_get;
    set_done = λ data_set s e. refl;
    set_only = λ data_set s x key_type id e unasked. absurd (cc);
    clear_held = λ s. refl;
  }
