-- ===== src/Lid/Queries.antt =====
-- `_get_lids_for_pns_impl` and `_get_pns_for_lids_impl` of wassupweb/signal/lid_mapping.py.
use wassupweb.Prelude.{ℕ, Option, none, some, List, [], ◌∷◌, map, Result, ◌>>=◌, ok, err}
use wassupweb.Text.{Text}
use wassupweb.Text.Number.{ℤ}
use wassupweb.Wabinary.Jid.{FullJid}
use wassupweb.Keys.KeyStore.{KeyStore, entry_of}
use wassupweb.Lid.{
  LidMappingStore, pn_key, lid_key, reverse_key, lid_mapping, cache_get, cache_set, cache_pair,
  truthy, dict_put,
}
use wassupweb.Lid.Storing.{store_lid_pn_mappings}
use wassupweb.Lid.Lookup.{
  Pair, lid_pair, pn_pair, Scan, scan, pending_users, is_pn, is_lid, cache_stored, settle,
  fetched_pairs, answer_of,
}

module _ {S : Type 0} (store : KeyStore S Text) (ttl : ℕ) where
  unfoldable pub stored_of : List Text → S → List (Text × Text)
  stored_of [] s = []
  stored_of (user ∷ users) s = store.get lid_mapping (user ∷ users) s

  -- The key store is asked for what the cache did not know.
  unfoldable pub ask_keys :
      ℕ → LidMappingStore S → Result (Unit {0}) × Scan → Result (List (Text × List ℤ)) × Scan
  unfolding pending_users cache_stored stored_of settle
  ask_keys now m (err e, s) = (err e, s)
  ask_keys now m (ok u, s) =
      let users = pending_users s.pending in
      let cache = cache_stored ttl now (stored_of users m.keys) users s.cache in
      settle ttl now s.pending (record s { cache = cache }) []

  -- The first part of the lookup of phone numbers: cache and key store.
  unfoldable pub scan_pns : ℕ → List Text → LidMappingStore S → Result (List (Text × List ℤ)) × Scan
  unfolding scan is_pn pn_key lid_pair ask_keys
  scan_pns now pns m = ask_keys now m (
      scan is_pn pn_key lid_pair ttl now pns
        (record { resolved = []; pending = []; cache = m.cache }))

  -- What the server answers is stored, and completes the answer.
  unfoldable pub complete :
      ℕ
      → List (Text × List ℤ)
      → List (Text × Pair)
      → List Pair
      → LidMappingStore S
      → Result (Option (List Pair)) × LidMappingStore S
  unfolding store_lid_pn_mappings fetched_pairs answer_of
  complete now fetch resolved pairs m =
      let (done, m') =
        store_lid_pn_mappings store ttl now (map (λ (p : Pair). (some p.0, some p.1)) pairs) m in
      ((do u ← done; all ← fetched_pairs fetch pairs resolved; ok (answer_of all)), m')

  unfoldable pub ask_server :
      (List Text → Result (Option (List Pair)))
      → ℕ
      → List (Text × List ℤ)
      → List (Text × Pair)
      → LidMappingStore S
      → Result (Option (List Pair)) × LidMappingStore S
  unfolding complete answer_of
  ask_server pn_to_lid_func now [] resolved m = (ok (answer_of resolved), m)
  ask_server pn_to_lid_func now (f ∷ fetch) resolved m =
      elim (pn_to_lid_func (map (λ (p : Text × List ℤ). p.0) (f ∷ fetch))) [
        | err e ↦ (err e, m)
        | ok none ↦ (ok (answer_of resolved), m)
        | ok (some []) ↦ (ok (answer_of resolved), m)
        | ok (some (pair ∷ pairs)) ↦ complete now (f ∷ fetch) resolved (pair ∷ pairs) m
      ]

  unfoldable pub ask_for_rest :
      (List Text → Result (Option (List Pair)))
      → ℕ
      → LidMappingStore S
      → Result (List (Text × List ℤ)) × Scan
      → Result (Option (List Pair)) × LidMappingStore S
  unfolding ask_server
  ask_for_rest pn_to_lid_func now m (err e, s) = (err e, record m { cache = s.cache })
  ask_for_rest pn_to_lid_func now m (ok fetch, s) =
      ask_server pn_to_lid_func now fetch s.resolved (record m { cache = s.cache })

  -- `_get_lids_for_pns_impl`
  unfoldable pub get_lids_for_pns :
      (List Text → Result (Option (List Pair)))
      → ℕ
      → List Text
      → LidMappingStore S
      → Result (Option (List Pair)) × LidMappingStore S
  unfolding scan_pns ask_for_rest
  get_lids_for_pns pn_to_lid_func now pns m = ask_for_rest pn_to_lid_func now m (scan_pns now pns m)

  -- The second loop of the lookup of LIDs.
  unfoldable pub settle_lids : ℕ → List (Text × Text) → List (Text × FullJid) → Scan → Scan
  unfolding cache_get truthy lid_key reverse_key cache_pair dict_put pn_pair
  settle_lids now stored [] s = s
  settle_lids now stored ((lid, decoded) ∷ pending) s =
      let (cached, cache) = cache_get ttl now (lid_key decoded.user) s.cache in
      let rest = settle_lids now stored pending in
      elim (truthy cached) [
        | some pn_user ↦ rest (record s {
          resolved = dict_put lid (pn_pair lid decoded pn_user) s.resolved;
          cache = cache;
        })
        | none ↦ elim (truthy (entry_of (reverse_key decoded.user) stored)) [
          | none ↦ rest (record s { cache = cache })
          | some pn_user ↦ rest (record s {
            resolved = dict_put lid (pn_pair lid decoded pn_user) s.resolved;
            cache =
                cache_set ttl now (pn_key pn_user) decoded.user
                  (cache_set ttl now (lid_key decoded.user) pn_user cache);
          })
        ]
      ]

  -- `_get_pns_for_lids_impl`
  unfoldable pub get_pns_for_lids :
      ℕ → List Text → LidMappingStore S → Result (Option (List Pair)) × LidMappingStore S
  unfolding scan is_lid lid_key pn_pair pending_users stored_of settle_lids answer_of
  get_pns_for_lids now lids m =
      let (done, s) =
        scan is_lid lid_key pn_pair ttl now lids
          (record { resolved = []; pending = []; cache = m.cache }) in
      let keys = map reverse_key (pending_users s.pending) in
      let s' = settle_lids now (stored_of keys m.keys) s.pending s in
      elim done [
        | err e ↦ (err e, record m { cache = s.cache })
        | ok u ↦ (ok (answer_of s'.resolved), record m { cache = s'.cache })
      ]
