-- ===== src/Lid/Found.antt =====
-- A stored pair is found again.
use wassupweb.Prelude.{
  ℕ, ◌+◌, ◌≤◌, ◌<◌, ◌≡◌, refl, ap, ◌∙◌, ◌⊎◌, inl, inr, true, false, Option, none, some, List, [],
  ◌∷◌, arith, leb, Exception, Result, ok, err, Result-cases,
}
use wassupweb.Text.{Text}
use wassupweb.Text.Number.{ℤ}
use wassupweb.Wabinary.Jid.{FullJid, jid_decode}
use wassupweb.Keys.KeyStore.{KeyStore}
use wassupweb.Keys.Cacheable.{dict_of}
use wassupweb.Lid.{
  MappingCache, LidMappingStore, pn_key, lid_mapping, renewed, value_in, cache_get, truthy,
  dict_put,
}
use wassupweb.Lid.Storing.{
  validated_pairs, Known, look_up, pair_map, batch_data, fill, write_news, store_pairs,
  store_lid_pn_mappings,
}
use wassupweb.Lid.Lookup.{
  Pair, lid_pair, asked_for, Scan, scan, scanned, is_pn, pending_users, cache_stored, settle,
  answer_of,
}
use wassupweb.Lid.Queries.{ask_keys, scan_pns, ask_for_rest, get_lids_for_pns, ask_server}
use wassupweb.Lid.Loops.{
  MapsTo, mentions, IsFresh, cache_all-kept, take_all-IsFresh, look_up-IsFresh, pair_map-MapsTo,
  pair_map-mentions,
}

module _ {S : Type 0} (store : KeyStore S Text) (ttl now : ℕ) (p l : Text) where
  fill-IsFresh :
      (k : Known) (s : S) → IsFresh ttl now p l k → IsFresh ttl now p l (fill store ttl now k s)
  unfolding fill
  fill-IsFresh k s h = go k.misses refl
    where
      go : (misses : List Text) → k.misses ≡ misses → IsFresh ttl now p l (fill store ttl now k s)
      go [] e = rw (fill, e) h
      go (q ∷ misses) e = rw (fill, e) (take_all-IsFresh ttl now p l _ (q ∷ misses) k h)

  write_news-cached :
      (news : List (Text × Text)) (cache : MappingCache) (s : S)
      → MapsTo p l news
      → (mentions p news ≡ true) ⊎ (cache (pn_key p) ≡ some (l, now + ttl))
      → (write_news store ttl now news cache s).0 ≡ ok tt
      → (write_news store ttl now news cache s).1.cache (pn_key p) ≡ some (l, now + ttl)
  unfolding write_news
  write_news-cached [] cache s h e done = cache_all-kept ttl now p l [] cache h e
  write_news-cached (pair ∷ news) cache s h e done =
      elim (Result-cases
        (store.set (dict_of ((lid_mapping, batch_data (pair ∷ news) []) ∷ [])) s).0) [
          | inl (u, wrote) ↦
              rw (write_news, wrote) (cache_all-kept ttl now p l (pair ∷ news) cache h e)
          | inr (x, failed) ↦ absurd (raised x (rw (write_news, failed) at done))
        ]
    where
      raised : (x : Exception) → Path (Result (Unit {0})) (err x) (ok tt) → ⊥
      raised x e = cc

  store_pairs-cached :
      (pairs : List (Text × Text)) (m : LidMappingStore S)
      → 0 < ttl
      → MapsTo p l pairs
      → mentions p pairs ≡ true
      → (store_pairs store ttl now pairs m).0 ≡ ok tt
      → (store_pairs store ttl now pairs m).1.cache (pn_key p) ≡ some (l, now + ttl)
  unfolding store_pairs
  store_pairs-cached pairs m pos h some_pair done =
      let k : Known =
        look_up ttl now pairs (record { existing = λ pn. none; misses = []; cache = m.cache }) in
      let fresh : IsFresh ttl now p l (fill store ttl now k m.keys) =
        fill-IsFresh k m.keys (look_up-IsFresh ttl now p l pairs _ pos (λ x e. absurd (cc))) in
      let k' : Known = fill store ttl now k m.keys in
      write_news-cached (pair_map k'.existing pairs []) k'.cache m.keys
        (pair_map-MapsTo ttl now p l k'.existing pairs [] h tt)
        (elim (pair_map-mentions ttl now p l k'.existing pairs [] h
          (unfold mentions in some_pair)) [
            | inl mentioned ↦ inl mentioned
            | inr known ↦ inr (fresh l known)
          ])
        done

-- A phone number whose user is in the cache is answered from it.
module _ {S : Type 0} (store : KeyStore S Text) (ttl : ℕ) where
  asked_for_lem :
      (pn : Text) (j : FullJid) (c : ℕ) (p : Text)
      → is_pn pn ≡ true
      → jid_decode pn ≡ ok (some j)
      → j.user ≡ c ∷ p
      → asked_for is_pn pn ≡ ok (some j)
  unfolding asked_for
  asked_for_lem pn j c p is decoded user =
      rw (is, decoded)
        (ap (λ (u : Text). ok (elim u as (λ z. Option FullJid) [ [] ↦ none | (x ∷ t) ↦ some j ]))
          user)

  cache_get_lem :
      (later : ℕ) (key : Text) (d : ℕ) (l : Text) (expires_at : ℕ) (cache : MappingCache)
      → cache key ≡ some (d ∷ l, expires_at)
      → later < expires_at
      → truthy (cache_get ttl later key cache).0 ≡ some (d ∷ l)
  unfolding cache_get renewed truthy value_in
  cache_get_lem later key d l expires_at cache cached ahead =
      let fresh : leb expires_at later ≡ false = ground arith in rw cached (rw fresh)

  -- What the first loop leaves of one phone number that the cache knows.
  abbrev answered : ℕ → Text → FullJid → Text → MappingCache → Scan
  answered later pn j lid_user cache = record {
    resolved = (pn, lid_pair pn j lid_user) ∷ [];
    pending = [];
    cache = (cache_get ttl later (pn_key j.user) cache).1;
  }

  scan_one :
      (later : ℕ) (pn : Text) (j : FullJid) (lid_user : Text) (cache : MappingCache)
      → asked_for is_pn pn ≡ ok (some j)
      → truthy (cache_get ttl later (pn_key j.user) cache).0 ≡ some lid_user
      → scan is_pn pn_key lid_pair ttl later
          (pn ∷ [])
          (record { resolved = []; pending = []; cache = cache })
        ≡ (ok tt, answered later pn j lid_user cache)
  unfolding scan scanned dict_put
  scan_one later pn j lid_user cache asked cached = rw (scan, asked) (rw cached)

  scan_pns_one :
      (later : ℕ) (pn : Text) (j : FullJid) (lid_user : Text) (m : LidMappingStore S)
      → asked_for is_pn pn ≡ ok (some j)
      → truthy (cache_get ttl later (pn_key j.user) m.cache).0 ≡ some lid_user
      → scan_pns store ttl later (pn ∷ []) m ≡ (ok [], answered later pn j lid_user m.cache)
  unfolding scan_pns ask_keys settle cache_stored pending_users
  scan_pns_one later pn j lid_user m asked cached =
      ap (ask_keys store ttl later m) (scan_one later pn j lid_user m.cache asked cached)

  get_lids_for_pns-cached :
      (pn_to_lid_func : List Text → Result (Option (List Pair))) (later : ℕ) (pn : Text)
      (j : FullJid) (c d : ℕ) (p l : Text) (expires_at : ℕ) (m : LidMappingStore S)
      → is_pn pn ≡ true
      → jid_decode pn ≡ ok (some j)
      → j.user ≡ c ∷ p
      → m.cache (pn_key (c ∷ p)) ≡ some (d ∷ l, expires_at)
      → later < expires_at
      → (get_lids_for_pns store ttl pn_to_lid_func later (pn ∷ []) m).0
        ≡ ok (some (lid_pair pn j (d ∷ l) ∷ []))
  unfolding get_lids_for_pns ask_for_rest ask_server answer_of
  get_lids_for_pns-cached f later pn j c d p l expires_at m is decoded user cached ahead =
      ap (λ (r : Result (List (Text × List ℤ)) × Scan). (ask_for_rest store ttl f later m r).0)
        (scan_pns_one later pn j (d ∷ l) m (asked_for_lem pn j c p is decoded user) (
          cache_get_lem later (pn_key j.user) d l expires_at m.cache
            (ap (λ (u : Text). m.cache (pn_key u)) user ∙ cached) ahead))

-- Where `store_lid_pn_mappings` returns, the pairs that it accepts have the user of a phone number and
-- give it one LID: as long as the cache keeps entries, a lookup of an address of that user is answered
-- with that LID, with the device and the kind of server of the address, and nobody is asked.
pub get_lids_for_pns-store_lid_pn_mappings :
    {S : Type 0} (store : KeyStore S Text) (ttl now later : ℕ)
    (pn_to_lid_func : List Text → Result (Option (List Pair)))
    (pairs : List (Option Text × Option Text)) (validated : List (Text × Text)) (c d : ℕ)
    (p l pn : Text) (j : FullJid) (m : LidMappingStore S)
    → validated_pairs pairs ≡ ok validated
    → MapsTo (c ∷ p) (d ∷ l) validated
    → mentions (c ∷ p) validated ≡ true
    → (store_lid_pn_mappings store ttl now pairs m).0 ≡ ok tt
    → now ≤ later
    → later < now + ttl
    → is_pn pn ≡ true
    → jid_decode pn ≡ ok (some j)
    → j.user ≡ c ∷ p
    → (get_lids_for_pns store ttl pn_to_lid_func later
        (pn ∷ [])
        (store_lid_pn_mappings store ttl now pairs m).1).0
      ≡ ok (some (lid_pair pn j (d ∷ l) ∷ []))
unfolding store_lid_pn_mappings
get_lids_for_pns-store_lid_pn_mappings store ttl now later f pairs validated c d p l pn j m valid
      maps some_pair done before ahead is decoded user =
    get_lids_for_pns-cached store ttl f later pn j c d p l (now + ttl)
      (store_lid_pn_mappings store ttl now pairs m).1 is decoded user (stored valid done) ahead
  where
    stored :
        validated_pairs pairs ≡ ok validated
        → (store_lid_pn_mappings store ttl now pairs m).0 ≡ ok tt
        → (store_lid_pn_mappings store ttl now pairs m).1.cache (pn_key (c ∷ p))
          ≡ some (d ∷ l, now + ttl)
    stored valid done =
        rw (store_lid_pn_mappings, valid)
          (store_pairs-cached store ttl now (c ∷ p) (d ∷ l) validated m (omega arith) maps some_pair
            (rw (store_lid_pn_mappings, valid) at done))
