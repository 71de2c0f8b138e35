-- ===== src/Keys/Transactions/Inside.antt =====
-- What the context holds during a transaction.
use wassupweb.Prelude.{
  ◌≡◌, refl, sym, ap, ◌∙◌, inl, inr, Bool, true, false, ◌&&◌, Option, none, some, List, [], ◌∷◌,
  if◌then◌else◌, Bool-cases, Option-cases, All,
}
use wassupweb.Text.{Text, text_eq, text_eq_iff}
use wassupweb.Retry.Lookup.{text_eq_refl}
use wassupweb.Locks.{update}
use wassupweb.Keys.{Store, store_set_values, store_set}
use wassupweb.Keys.KeyStore.{DataSet, KeyStore, Keeps, entry_of, among, applied}
use wassupweb.Keys.Cacheable.Entries.{sought, pick, put_all_lem}
use wassupweb.Keys.Cacheable.Calls.{flat}
use wassupweb.Keys.Transactions.{
  Context, pre_key, not_in, put_entries, set_type, set_inside, fetch, get_inside,
}
use wassupweb.Keys.Transactions.Entries.{
  changed, put_entries_lem, update_type, store_set_values_lem, among-not_in,
}

-- During a transaction: the store below with the mutations is what the calls have left so far, and
-- the cache has every mutation and agrees with it.
pub record Reflects {V : Type 0} (ctx : Context V) (below now : Store V) : Type 0 where
  pub overlaid : (t id : Text) → applied ctx.mutations below t id ≡ now t id
  pub agrees : (t id : Text) (value : Option V) → ctx.cache t id ≡ some value → value ≡ now t id
  pub mutated : (t id : Text) → ctx.cache t id ≡ none → ctx.mutations t id ≡ none
  pub unwritten : ctx.is_written ≡ false → (t id : Text) → ctx.mutations t id ≡ none

module _ {V : Type 0} where
  pub set_type-cache :
      (t u id : Text) (values : List (Text × Option V)) (ctx : Context V)
      → text_eq t pre_key ≡ false
      → ((set_type t values ctx).cache u id
          ≡ changed (text_eq t u) (entry_of id values) some (ctx.cache u id))
        × ((set_type t values ctx).mutations u id
            ≡ changed (text_eq t u) (entry_of id values) some (ctx.mutations u id))
  unfolding set_type
  set_type-cache t u id values ctx other = (
    rw other (
        update_type t u id values some (put_entries values (ctx.cache t)) ctx.cache
          (put_entries_lem values (ctx.cache t) id)),
    rw other (
        update_type t u id values some (put_entries values (ctx.mutations t)) ctx.mutations
          (put_entries_lem values (ctx.mutations t) id)),
  )

  abbrev laid : Option (Option V) → Option V → Option V
  laid none old = old
  laid (some v) old = v

  applied-laid :
      (m : DataSet V) (store : Store V) (t id : Text)
      → applied m store t id ≡ laid (m t id) (store t id)
  unfolding applied
  applied-laid m store t id = elim (Option-cases (m t id)) [
    | inl e ↦ rw (applied, e)
    | inr (v, e) ↦ rw (applied, e)
  ]

  laid-changed :
      (b : Bool) (e m : Option (Option V)) (below now : Option V)
      → laid m below ≡ now
      → laid (changed b e some m) below ≡ changed b e (λ v. v) now
  laid-changed true (some v) m below now h = refl
  laid-changed true none m below now h = h
  laid-changed false e m below now h = h

  agrees_changed :
      (b : Bool) (e c : Option (Option V)) (now value : Option V)
      → (c ≡ some value → value ≡ now)
      → changed b e some c ≡ some value
      → value ≡ changed b e (λ v. v) now
  agrees_changed true (some v) c now value h e = cc
  agrees_changed true none c now value h e = h e
  agrees_changed false x c now value h e = h e

  absent_changed :
      (b : Bool) (e c m : Option (Option V))
      → (c ≡ none → m ≡ none)
      → changed b e some c ≡ none
      → changed b e some m ≡ none
  absent_changed true (some v) c m h e = absurd (cc)
  absent_changed true none c m h e = h e
  absent_changed false x c m h e = h e

  set_type-written :
      (t : Text) (values : List (Text × Option V)) (ctx : Context V)
      → (set_type t values ctx).is_written ≡ true
  unfolding set_type
  set_type-written t values ctx = refl

  set_type-Reflects :
      (t : Text) (values : List (Text × Option V)) (ctx : Context V) (below now : Store V)
      → text_eq t pre_key ≡ false
      → Reflects ctx below now
      → Reflects (set_type t values ctx) below (store_set_values t values now)
  set_type-Reflects t values ctx below now other h = record {
    overlaid = λ u id.
        applied-laid (set_type t values ctx).mutations below u id
        ∙ ap (λ (m : Option (Option V)). laid m (below u id))
            (set_type-cache t u id values ctx other).1
        ∙ laid-changed (text_eq t u) (entry_of id values) (ctx.mutations u id) (below u id)
            (now u id) (sym (applied-laid ctx.mutations below u id) ∙ h.overlaid u id)
        ∙ sym (store_set_values_lem t values now u id);
    agrees = λ u id value e.
        agrees_changed (text_eq t u) (entry_of id values) (ctx.cache u id) (now u id) value
          (h.agrees u id value) (sym (set_type-cache t u id values ctx other).0 ∙ e)
        ∙ sym (store_set_values_lem t values now u id);
    mutated = λ u id e.
        (set_type-cache t u id values ctx other).1
        ∙ absent_changed (text_eq t u) (entry_of id values) (ctx.cache u id) (ctx.mutations u id)
            (h.mutated u id) (sym (set_type-cache t u id values ctx other).0 ∙ e);
    unwritten = λ e. absurd (let w = set_type-written t values ctx in cc);
  }

  -- The pre-keys have rules of their own.
  abbrev pub HasPlainTypes : List (Text × List (Text × Option V)) → Type 0
  HasPlainTypes data_set =
      All (λ (p : Text × List (Text × Option V)). text_eq p.0 pre_key ≡ false) data_set

  pub set_inside-Reflects :
      (data_set : List (Text × List (Text × Option V))) (ctx : Context V) (below now : Store V)
      → HasPlainTypes data_set
      → Reflects ctx below now
      → Reflects (set_inside data_set ctx) below (store_set data_set now)
  unfolding set_inside store_set
  set_inside-Reflects [] ctx below now hs h = h
  set_inside-Reflects ((t, values) ∷ data_set) ctx below now (ht, hs) h =
      set_inside-Reflects data_set (set_type t values ctx) below (store_set_values t values now) hs
        (set_type-Reflects t values ctx below now ht h)

module _ {S V : Type 0} (k : KeyStore S V) (held : S → Store V) (keeps : Keeps k held) where
  fetch_lem :
      (t : Text) (ids : List Text) (s : S) (ctx : Context V) (u id : Text)
      → (fetch k t ids s ctx).cache u id
        ≡ pick (if text_eq t u && among id ids then held s u id else none) (ctx.cache u id)
  unfolding fetch among update
  fetch_lem t [] s ctx u id = elim (Bool-cases (text_eq t u)) [ inl e ↦ rw e | inr e ↦ rw e ]
  fetch_lem t (x ∷ ids) s ctx u id = elim (Bool-cases (text_eq t u)) [
    | inl same ↦ rw same (
        put_all_lem (k.get t (x ∷ ids) s) (ctx.cache t) id
        ∙ ap (λ (o : Option V). pick o (ctx.cache t id)) (keeps.get_held t (x ∷ ids) s id)
        ∙ ap
            (λ (y : Text). pick (if among id (x ∷ ids) then held s y id else none) (ctx.cache y id))
            ((text_eq_iff t u).0 same))
    | inr other ↦ rw other
  ]

  pub fetch-same :
      (t : Text) (ids : List Text) (s : S) (ctx : Context V)
      → ((fetch k t ids s ctx).mutations ≡ ctx.mutations)
        × ((fetch k t ids s ctx).is_written ≡ ctx.is_written)
  unfolding fetch
  fetch-same t [] s ctx = (refl, refl)
  fetch-same t (x ∷ ids) s ctx = (refl, refl)

  pick_agrees :
      (b : Bool) (c : Option (Option V)) (hd now value : Option V)
      → (b ≡ true → c ≡ none)
      → (c ≡ none → hd ≡ now)
      → (c ≡ some value → value ≡ now)
      → pick (if b then hd else none) c ≡ some value
      → value ≡ now
  pick_agrees true c (some v) now value free fresh old e = sym (ap flat e) ∙ fresh (free refl)
  pick_agrees true c none now value free fresh old e = old e
  pick_agrees false c hd now value free fresh old e = old e

  pick-none : (o : Option V) (c : Option (Option V)) → pick o c ≡ none → c ≡ none
  pick-none none c e = e
  pick-none (some v) c e = absurd (cc)

  answer_of :
      (c : Option (Option V)) (hd now : Option V)
      → (c ≡ none → hd ≡ now)
      → ((value : Option V) → c ≡ some value → value ≡ now)
      → flat (pick (if sought c true then hd else none) c) ≡ now
  answer_of none none now fresh old = fresh refl
  answer_of none (some v) now fresh old = fresh refl
  answer_of (some value) hd now fresh old = old value refl

  sought-none : (c : Option (Option V)) (b : Bool) → sought c b ≡ true → c ≡ none
  sought-none none b e = refl
  sought-none (some value) b e = absurd (cc)

  -- What is fetched is not in the cache.
  uncached :
      (t : Text) (ids : List Text) (ctx : Context V) (u id : Text)
      → (text_eq t u && among id (not_in (ctx.cache t) ids)) ≡ true
      → ctx.cache u id ≡ none
  uncached t ids ctx u id e = elim (Bool-cases (text_eq t u)) [
    | inl same ↦
        ap (λ (y : Text). ctx.cache y id) (sym ((text_eq_iff t u).0 same))
        ∙ sought-none (ctx.cache t id) (among id ids)
            (sym (among-not_in (ctx.cache t) ids id) ∙ (rw same at e))
    | inr other ↦ absurd (let z : false ≡ true = rw other at e in cc)
  ]

  held_now :
      (s : S) (ctx : Context V) (now : Store V) (u id : Text)
      → Reflects ctx (held s) now
      → ctx.cache u id ≡ none
      → held s u id ≡ now u id
  held_now s ctx now u id h e =
      sym (applied-laid ctx.mutations (held s) u id ∙ rw (h.mutated u id e)) ∙ h.overlaid u id

  pub get_inside-Reflects :
      (t : Text) (ids : List Text) (s : S) (ctx : Context V) (now : Store V)
      → Reflects ctx (held s) now
      → Reflects (get_inside k t ids s ctx).1 (held s) now
  unfolding get_inside
  get_inside-Reflects t ids s ctx now h =
      let first : List Text = not_in (ctx.cache t) ids in
      let (same, written) = fetch-same t first s ctx in
      record {
        overlaid = λ u id. ap (λ (m : DataSet V). applied m (held s) u id) same ∙ h.overlaid u id;
        agrees = λ u id value e.
            pick_agrees (text_eq t u && among id first) (ctx.cache u id) (held s u id) (now u id)
              value (uncached t ids ctx u id) (λ absent. held_now s ctx now u id h absent)
              (h.agrees u id value) (sym (fetch_lem t first s ctx u id) ∙ e);
        mutated = λ u id e.
            ap (λ (m : DataSet V). m u id) same
            ∙ h.mutated u id (
                pick-none (if text_eq t u && among id first then held s u id else none)
                  (ctx.cache u id) (sym (fetch_lem t first s ctx u id) ∙ e));
        unwritten =
            λ e u id. ap (λ (m : DataSet V). m u id) same ∙ h.unwritten (sym written ∙ e) u id;
      }

  pub get_inside-answer :
      (t : Text) (ids : List Text) (s : S) (ctx : Context V) (now : Store V) (id : Text)
      → Reflects ctx (held s) now
      → among id ids ≡ true
      → flat ((get_inside k t ids s ctx).0 id) ≡ now t id
  unfolding get_inside
  get_inside-answer t ids s ctx now id h asks =
      let first : List Text = not_in (ctx.cache t) ids in
      let c : Option (Option V) = ctx.cache t id in
      let hd : Option V = held s t id in
      rw asks (
        ap flat (fetch_lem t first s ctx t id)
        ∙ ap (λ (b : Bool). flat (pick (if b && among id first then hd else none) c))
            (text_eq_refl t)
        ∙ ap (λ (b : Bool). flat (pick (if b then hd else none) c))
            (among-not_in (ctx.cache t) ids id)
        ∙ ap (λ (b : Bool). flat (pick (if sought c b then hd else none) c)) asks
        ∙ answer_of c hd (now t id) (λ absent. held_now s ctx now t id h absent)
            (λ value e. h.agrees t id value e))
