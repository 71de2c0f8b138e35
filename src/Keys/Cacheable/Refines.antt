-- ===== src/Keys/Cacheable/Refines.antt =====
-- The caching store answers as the store below it would.
use wassupweb.Prelude.{
  ℕ, ◌+◌, ◌≡◌, refl, sym, ap, ◌∙◌, ◌⊎◌, inl, inr, Bool, true, false, Option, none, some, List, [],
  ◌∷◌, leb, if◌then◌else◌, Bool-cases, All, Result, Result-cases,
}
use wassupweb.Text.{Text, text_eq, text_eq_iff}
use wassupweb.Keys.{Store}
use wassupweb.Keys.KeyStore.{KeyStore, Keeps, entry_of, among, applied}
use wassupweb.Keys.Cacheable.{
  cache_key, Entries, CacheableStore, unexpired, prune, found, missing, dict_of, end_get, load,
  cached_get, cached_set, cached_clear,
}
use wassupweb.Keys.Cacheable.Entries.{
  IsKeyType, HasKeyTypes, over, put_values_lem, put_data_lem, put_all_lem, value_of, pick, sought,
  found_lem, among-missing,
}
use wassupweb.Keys.Cacheable.Calls.{
  Call, get, set, clear, AsksTypes, flat, doubt, is_done, Doubts, Serves,
}

module _ {S V : Type 0} (held : S → Store V) where
  -- Every entry of the cache that is not in doubt is what the store below holds.
  abbrev pub Tracks : Doubts → Entries V → S → Type 0
  Tracks doubts entries s =
      (key_type id : Text) (value : Option V) (expiry : ℕ)
      → IsKeyType key_type
      → doubts key_type id ≡ false
      → entries (cache_key key_type id) ≡ some (value, expiry)
      → value ≡ held s key_type id

  prune-Tracks :
      (now : ℕ) (doubts : Doubts) (entries : Entries V) (s : S)
      → Tracks doubts entries s
      → Tracks doubts (prune now entries) s
  unfolding prune unexpired
  prune-Tracks now doubts entries s h key_type id value expiry ht sure e =
      h key_type id value expiry ht sure (kept (entries (cache_key key_type id)) e)
    where
      kept_some :
          (v : Option V) (x : ℕ)
          → (leb x now ≡ true) ⊎ (leb x now ≡ false)
          → unexpired now (some (v, x)) ≡ some (value, expiry)
          → Path (Option (Option V × ℕ)) (some (v, x)) (some (value, expiry))
      kept_some v x (inl old) e =
          absurd
            (let z : Path (Option (Option V × ℕ)) none (some (value, expiry)) = rw old at e in cc)
      kept_some v x (inr fresh) e = rw fresh at e

      kept :
          (o : Option (Option V × ℕ))
          → unexpired now o ≡ some (value, expiry)
          → o ≡ some (value, expiry)
      kept none e = absurd (cc)
      kept (some (v, x)) e = kept_some v x (Bool-cases (leb x now)) e

module _ {S V : Type 0} (k : KeyStore S V) (held : S → Store V) (keeps : Keeps k held)
    (ttl : ℕ) where
  -- What `get` reads from the store below.
  abbrev asked : Text → List Text → Text → S → Option V
  asked key_type ids id s = if among id ids then held s key_type id else none

  load_result :
      (later : ℕ) (key_type : Text) (ids : List Text) (result : Text → Option (Option V))
      (entries : Entries V) (s : S) (id : Text)
      → (load k ttl later key_type ids result entries s).0 id
        ≡ pick (asked key_type ids id s) (result id)
  unfolding load end_get among
  load_result later key_type [] result entries s id = refl
  load_result later key_type (x ∷ ids) result entries s id =
      put_all_lem (k.get key_type (x ∷ ids) s) result id
      ∙ rw (keeps.get_held key_type (x ∷ ids) s id)

  load_entries :
      (later : ℕ) (key_type : Text) (ids : List Text) (result : Text → Option (Option V))
      (entries : Entries V) (s : S) (u id : Text)
      → IsKeyType key_type
      → IsKeyType u
      → (load k ttl later key_type ids result entries s).1 (cache_key u id)
        ≡ over
            (if text_eq key_type u then asked key_type ids id s else none)
            (λ v. (some v, later + ttl))
            (entries (cache_key u id))
  unfolding load end_get among
  load_entries later key_type [] result entries s u id ht hu =
      elim (Bool-cases (text_eq key_type u)) [ inl e ↦ rw e | inr e ↦ rw e ]
  load_entries later key_type (x ∷ ids) result entries s u id ht hu =
      put_values_lem some (later + ttl) key_type (k.get key_type (x ∷ ids) s) entries u id ht hu
      ∙ rw (keeps.get_held key_type (x ∷ ids) s id)

  answer_at :
      (o : Option (Option V × ℕ)) (h : Option V)
      → ((value : Option V) (expiry : ℕ) → o ≡ some (value, expiry) → value ≡ h)
      → flat (pick (if sought o true then h else none) (value_of o)) ≡ h
  answer_at none none tracks = refl
  answer_at none (some v) tracks = refl
  answer_at (some (v, x)) h tracks = tracks v x refl

  cached_get-answer :
      (now later : ℕ) (key_type : Text) (ids : List Text) (c : CacheableStore S V) (id : Text)
      (doubts : Doubts)
      → IsKeyType key_type
      → Tracks held doubts c.entries c.below
      → doubts key_type id ≡ false
      → among id ids ≡ true
      → flat ((cached_get k ttl now later key_type ids c).0 id)
        ≡ entry_of id (k.get key_type ids c.below)
  unfolding cached_get
  cached_get-answer now later key_type ids c id doubts ht tracks sure asks =
      let entries : Entries V = prune now c.entries in
      let o : Option (Option V × ℕ) = entries (cache_key key_type id) in
      let h : Option V = held c.below key_type id in
      let first : List Text = missing key_type ids entries in
      ap flat (load_result later key_type first (found key_type ids entries) entries c.below id)
      ∙ ap (λ (r : Option (Option V)). flat (pick (asked key_type first id c.below) r))
          (found_lem key_type ids entries id)
      ∙ ap
          (λ (b : Bool).
            flat (pick (if b then h else none) (if among id ids then value_of o else none)))
          (among-missing key_type ids entries id)
      ∙ ap
          (λ (b : Bool).
            flat (pick (if sought o b then h else none) (if b then value_of o else none)))
          asks
      ∙ answer_at o h (λ value expiry e.
        prune-Tracks held now doubts c.entries c.below tracks key_type id value expiry ht sure e)
      ∙ sym (keeps.get_held key_type ids c.below id ∙ ap (λ (b : Bool). if b then h else none) asks)

  -- An entry that a dictionary has is what it asks for, and the others are as they were.
  over_held :
      {W : Type 0} (w : Option W) (f : W → Option V) (x : ℕ) (old : Option (Option V × ℕ))
      (value : Option V) (expiry : ℕ) (h : Option V)
      → ((u : W) → w ≡ some u → f u ≡ h)
      → ((v : Option V) (e : ℕ) → w ≡ none → old ≡ some (v, e) → v ≡ h)
      → over w (λ u. (f u, x)) old ≡ some (value, expiry)
      → value ≡ h
  over_held none f x old value expiry h new kept e = kept value expiry refl e
  over_held (some u) f x old value expiry h new kept e = first e ∙ new u refl
    where
      first : Path (Option (Option V × ℕ)) (some (f u, x)) (some (value, expiry)) → value ≡ f u
      first e = sym (
          ap
            (λ (o : Option (Option V × ℕ)). elim o as (λ z. Option V) [
              | some p ↦ p.0
              | none ↦ none
            ])
            e)

  asked_new :
      (key_type u id : Text) (b : Bool) (s : S) (v : V)
      → (if text_eq key_type u then (if b then held s key_type id else none) else none) ≡ some v
      → some v ≡ held s u id
  asked_new key_type u id b s v h = elim (Bool-cases (text_eq key_type u)) [
    | inl same ↦ sym (
        ap (λ (t : Text). held s t id) (sym ((text_eq_iff key_type u).0 same))
        ∙ read b (rw same at h))
    | inr other ↦ absurd (let z : Path (Option V) none (some v) = rw other at h in cc)
  ]
    where
      read :
          (b : Bool)
          → (if b then held s key_type id else none) ≡ some v
          → held s key_type id ≡ some v
      read true h = h
      read false h = absurd (cc)

  cached_get-Tracks :
      (now later : ℕ) (key_type : Text) (ids : List Text) (c : CacheableStore S V) (doubts : Doubts)
      → IsKeyType key_type
      → Tracks held doubts c.entries c.below
      → Tracks held doubts (cached_get k ttl now later key_type ids c).1.entries c.below
  unfolding cached_get
  cached_get-Tracks now later key_type ids c doubts ht tracks u id value expiry hu sure e =
      let entries : Entries V = prune now c.entries in
      over_held
        (if text_eq key_type u
          then asked key_type (missing key_type ids entries) id c.below
          else none)
        some (later + ttl) (entries (cache_key u id)) value expiry (held c.below u id)
        (λ v h. asked_new key_type u id (among id (missing key_type ids entries)) c.below v h)
        (λ v x z old. prune-Tracks held now doubts c.entries c.below tracks u id v x hu sure old)
        (sym (
            load_entries later key_type (missing key_type ids entries) (found key_type ids entries)
              entries c.below u id ht hu)
          ∙ e)

  -- What a `set` does not ask for is in doubt where it was before; what a failed one asks for is.
  doubt_kept :
      (done : Bool) (o : Option (Option V)) (before : Bool)
      → o ≡ none
      → doubt done o before ≡ false
      → before ≡ false
  unfolding doubt
  doubt_kept true none before e sure = sure
  doubt_kept false none before e sure = sure
  doubt_kept done (some v) before e sure = absurd (cc)

  doubt_failed :
      (o : Option (Option V)) (before : Bool) (v : Option V)
      → o ≡ some v
      → doubt false o before ≡ false
      → ⊥
  unfolding doubt
  doubt_failed none before v e sure = cc
  doubt_failed (some w) before v e sure = cc

  -- The doubts after a `set`.
  abbrev after : ℕ → List (Text × List (Text × Option V)) → S → Doubts → Doubts
  after now data_set s doubts key_type id =
      doubt (is_done (k.set (dict_of data_set) s).0) (dict_of data_set key_type id)
        (doubts key_type id)

  cached_set-Tracks :
      (now : ℕ) (data_set : List (Text × List (Text × Option V))) (c : CacheableStore S V)
      (doubts : Doubts)
      → HasKeyTypes data_set
      → Tracks held doubts c.entries c.below
      → Tracks held
          (after now data_set c.below doubts)
          (cached_set k ttl now data_set c).1.entries
          (k.set (dict_of data_set) c.below).1
  unfolding cached_set applied
  cached_set-Tracks now data_set c doubts hs tracks u id value expiry hu sure e =
      over_held (dict_of data_set u id) (λ v. v) (now + ttl) (c.entries (cache_key u id)) value
        expiry (held (k.set (dict_of data_set) c.below).1 u id) (λ v asks. new v asks)
        (λ v x asks old. kept v x asks old)
        (sym (put_data_lem data_set (now + ttl) c.entries u id hs hu) ∙ e)
    where
      new :
          (v : Option V)
          → dict_of data_set u id ≡ some v
          → v ≡ held (k.set (dict_of data_set) c.below).1 u id
      new v asks = elim (Result-cases (k.set (dict_of data_set) c.below).0) [
        | inl (done, here) ↦ sym (
            ap (λ (st : Store V). st u id) (keeps.set_done (dict_of data_set) c.below here)
            ∙ rw (applied, asks))
        | inr (x, failed) ↦ absurd (
            doubt_failed (dict_of data_set u id) (doubts u id) v asks (
              ap
                (λ (r : Result (Unit {0})). doubt (is_done r) (dict_of data_set u id) (doubts u id))
                (sym failed)
              ∙ sure))
      ]

      kept :
          (v : Option V) (x : ℕ)
          → dict_of data_set u id ≡ none
          → c.entries (cache_key u id) ≡ some (v, x)
          → v ≡ held (k.set (dict_of data_set) c.below).1 u id
      kept v x asks old =
          let before =
            doubt_kept (is_done (k.set (dict_of data_set) c.below).0) (dict_of data_set u id)
              (doubts u id) asks sure in
          tracks u id v x hu before old
          ∙ sym (elim (Result-cases (k.set (dict_of data_set) c.below).0) [
            | inl (done, here) ↦
                ap (λ (st : Store V). st u id) (keeps.set_done (dict_of data_set) c.below here)
                ∙ rw (applied, asks)
            | inr (y, failed) ↦ keeps.set_only (dict_of data_set) c.below y u id failed asks
          ])

  -- Where the store below keeps what it is told and no more, the types' names have no dot, and what the
  -- cache has is what the store below holds, but for entries in doubt: a run of calls of the caching
  -- store goes as the same calls of the store itself. For every id that is asked for and not in
  -- doubt, result.get(id) is the same; every set returns or raises the same, and the run goes on behind
  -- one that raises; the store below ends in the same state. In doubt is what a set that raised asked
  -- for, until one that returns asks for it, or clear.
  pub calls-Serves :
      (calls : List (Call V)) (c : CacheableStore S V) (doubts : Doubts)
      → All AsksTypes calls
      → Tracks held doubts c.entries c.below
      → Serves k ttl calls c c.below doubts
  unfolding cached_get cached_set cached_clear
  calls-Serves [] c doubts h tracks = refl
  calls-Serves (get now later key_type ids ∷ calls) c doubts (ht, h) tracks = (
    λ id asks sure. cached_get-answer now later key_type ids c id doubts ht tracks sure asks,
    calls-Serves calls (cached_get k ttl now later key_type ids c).1 doubts h
        (cached_get-Tracks now later key_type ids c doubts ht tracks),
  )
  calls-Serves (set now data_set ∷ calls) c doubts (hs, h) tracks = (
    refl,
    calls-Serves calls (cached_set k ttl now data_set c).1 (after now data_set c.below doubts) h
        (cached_set-Tracks now data_set c doubts hs tracks),
  )
  calls-Serves (clear ∷ calls) c doubts (hs, h) tracks =
      calls-Serves calls (cached_clear k ttl c) (λ t id. false) h
        (λ t id value x ht sure e. absurd (no_entry value x e))
    where
      no_entry :
          (value : Option V) (x : ℕ) → Path (Option (Option V × ℕ)) none (some (value, x)) → ⊥
      no_entry value x e = cc
