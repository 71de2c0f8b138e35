-- ===== src/Keys/Transactions/Bodies.antt =====
-- What the body of a transaction of wassupweb/utils/auth_utils.py does, inside it and on a store itself.
use mathlib.Core.Path.{subst}
use wassupweb.Prelude.{
  ◌≡◌, refl, sym, ap, ◌∙◌, Bool, true, false, Option, none, some, List, [], ◌∷◌, map, All, Result,
}
use wassupweb.Text.{Text, text_eq}
use wassupweb.Keys.{Store, store_set}
use wassupweb.Keys.KeyStore.{map-among, DataSet, KeyStore, Keeps, entry_of}
use wassupweb.Keys.Cacheable.Calls.{flat}
use wassupweb.Keys.Transactions.{Context, set_type, set_inside, get_inside, not_in}
use wassupweb.Keys.Transactions.Entries.{changed}
use wassupweb.Keys.Transactions.Inside.{
  Reflects, HasPlainTypes, set_type-cache, fetch-same, set_inside-Reflects, get_inside-Reflects,
  get_inside-answer,
}

-- A call that the body of a transaction makes.
pub data Access (V : Type 0) : Type 0 where
  read : Text → List Text → Access V
  write : List (Text × List (Text × Option V)) → Access V

-- A body: what it calls next depends on the answers so far, which it reads with `result.get(id)`, and
-- in the end it returns or raises.
pub data Program (V A : Type 0) : Type 0 where
  end : Result A → Program V A
  call : Access V → (List (Option V) → Program V A) → Program V A

abbrev pub IsPlainAccess : {V : Type 0} → Access V → Type 0
IsPlainAccess (read t ids) = Unit
IsPlainAccess (write data_set) = HasPlainTypes data_set

-- Whatever the answers, no pre-key is written.
abbrev pub IsPlain : {V A : Type 0} → Program V A → Type 0
IsPlain (end r) = Unit
IsPlain {V} (call access next) =
    IsPlainAccess access × ((answer : List (Option V)) → IsPlain (next answer))

-- A body over anything that serves its calls.
unfoldable pub perform :
    {V A T : Type 0} → (Access V → T → List (Option V) × T) → Program V A → T → Result A × T
perform serve (end r) s = (r, s)
perform serve (call access next) s =
    let (answer, s') = serve access s in perform serve (next answer) s'

module _ {V : Type 0} where
  -- The same call on a store that is nothing but what it holds.
  unfoldable pub access_store : Access V → Store V → List (Option V) × Store V
  unfolding store_set
  access_store (read t ids) store = (map (λ id. store t id) ids, store)
  access_store (write data_set) store = ([], store_set data_set store)

  -- The call does not write this entry.
  abbrev pub Spares : Text → Text → Access V → Type 0
  Spares t id (read u ids) = Unit
  Spares t id (write data_set) =
      All (λ (p : Text × List (Text × Option V)). text_eq p.0 t ≡ true → entry_of id p.1 ≡ none)
        data_set

  -- A run of the body on the store itself does not write this entry.
  abbrev pub Leaves : {A : Type 0} → Text → Text → Program V A → Store V → Type 0
  Leaves t id (end r) store = Unit
  Leaves t id (call access next) store =
      Spares t id access
      × Leaves t id (next (access_store access store).0) (access_store access store).1

module _ {S V : Type 0} (k : KeyStore S V) where
  unfoldable pub access_inside : S → Access V → Context V → List (Option V) × Context V
  unfolding get_inside set_inside
  access_inside s (read t ids) ctx =
      let (result, ctx') = get_inside k t ids s ctx in (map (λ id. flat (result id)) ids, ctx')
  access_inside s (write data_set) ctx = ([], set_inside data_set ctx)

  -- `exec_fn`: the body with its calls served inside the transaction.
  unfoldable pub exec_of : {A : Type 0} → Program V A → S → Context V → Result A × Context V
  unfolding perform access_inside
  exec_of program s ctx = perform (access_inside s) program ctx

module _ {V : Type 0} (t id : Text) where
  changed-none :
      (same : Bool) (entry old : Option (Option V))
      → (same ≡ true → entry ≡ none)
      → old ≡ none
      → changed same entry some old ≡ none
  changed-none true none old spared e = e
  changed-none true (some v) old spared e = absurd (let z = spared refl in cc)
  changed-none false entry old spared e = e

  set_inside-none :
      (data_set : List (Text × List (Text × Option V))) (ctx : Context V)
      → HasPlainTypes data_set
      → Spares t id (write data_set)
      → ctx.mutations t id ≡ none
      → (set_inside data_set ctx).mutations t id ≡ none
  unfolding set_inside
  set_inside-none [] ctx plain spared e = e
  set_inside-none ((u, values) ∷ data_set) ctx (hu, plain) (here, spared) e =
      set_inside-none data_set (set_type u values ctx) plain spared (
        (set_type-cache u t id values ctx hu).1
        ∙ changed-none (text_eq u t) (entry_of id values) (ctx.mutations t id) here e)

module _ {S V : Type 0} (k : KeyStore S V) (held : S → Store V) (keeps : Keeps k held) where
  pub perform-Reflects :
      {A : Type 0} (program : Program V A) (s : S) (ctx : Context V) (now : Store V)
      → IsPlain program
      → Reflects ctx (held s) now
      → ((perform (access_inside k s) program ctx).0 ≡ (perform access_store program now).0)
        × Reflects
            (perform (access_inside k s) program ctx).1
            (held s)
            (perform access_store program now).1
        × ((t id : Text)
            → Leaves t id program now
            → ctx.mutations t id ≡ none
            → (perform (access_inside k s) program ctx).1.mutations t id ≡ none)
  unfolding perform access_inside access_store
  perform-Reflects (end r) s ctx now plain h = (refl, h, λ t id spared e. e)
  perform-Reflects (call (read t ids) next) s ctx now (ht, plain) h =
      let (same, later, spares) =
        perform-Reflects (next (map (λ id. now t id) ids)) s (get_inside k t ids s ctx).1 now
          (plain (map (λ id. now t id) ids)) (get_inside-Reflects k held keeps t ids s ctx now h) in
      let answers =
        map-among (λ id. flat ((get_inside k t ids s ctx).0 id)) (λ id. now t id) ids
          (λ id e. get_inside-answer k held keeps t ids s ctx now id h e) in
      subst
        (λ (a : List (Option V)).
          ((perform (access_inside k s) (next a) (get_inside k t ids s ctx).1).0
            ≡ (perform access_store (next (map (λ id. now t id) ids)) now).0)
          × Reflects (perform (access_inside k s) (next a) (get_inside k t ids s ctx).1).1 (held s)
              (perform access_store (next (map (λ id. now t id) ids)) now).1
          × ((u id : Text)
              → Leaves u id (call (read t ids) next) now
              → ctx.mutations u id ≡ none
              → (perform (access_inside k s) (next a) (get_inside k t ids s ctx).1).1.mutations u id
                ≡ none))
        (sym answers)
        (same, later, λ u id spared e. spares u id spared.1 (read_none t ids s ctx u id e))
    where
      read_none :
          (t : Text) (ids : List Text) (s : S) (ctx : Context V) (u id : Text)
          → ctx.mutations u id ≡ none
          → (get_inside k t ids s ctx).1.mutations u id ≡ none
      read_none t ids s ctx u id e =
          unfold get_inside in
          ap (λ (m : DataSet V). m u id)
            (fetch-same k held keeps t (not_in (ctx.cache t) ids) s ctx).0
          ∙ e
  perform-Reflects (call (write data_set) next) s ctx now (ht, plain) h =
      let (same, later, spares) =
        perform-Reflects (next []) s (set_inside data_set ctx) (store_set data_set now) (plain [])
          (set_inside-Reflects data_set ctx (held s) now ht h) in
      (
        same,
        later,
        λ u id spared e. spares u id spared.1 (set_inside-none u id data_set ctx ht spared.0 e),
      )
