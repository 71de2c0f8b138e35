-- ===== src/Lid/Lookup.antt =====
-- The loops of `_get_lids_for_pns_impl` and `_get_pns_for_lids_impl` of
-- wassupweb/signal/lid_mapping.py. A pair of the
-- answer is the LID and the phone number. Sets are lists in the order in which elements come.
use wassupweb.Prelude.{
  ℕ, Bool, false, ◌||◌, Option, none, some, List, [], ◌∷◌, ◌++◌, map, ◌==◌, if◌then◌else◌, Result,
  ◌>>=◌, ok, err,
}
use wassupweb.Text.{Text, ascii, text_eq}
use wassupweb.Text.Number.{ℤ, pos, negsuc, str_int}
use wassupweb.Wabinary.Jid.{
  FullJid, hosted_lid_domain, device_part, jid_decode, is_lid_user, is_pn_user, is_hosted_pn_user,
  jid_normalized_user,
}
use wassupweb.Keys.KeyStore.{entry_of}
use wassupweb.Lid.{MappingCache, pn_key, cache_get, cache_pair, truthy, dict_put, set_add}
use wassupweb.Lid.Storing.{user_of}

-- A pair of the answer.
abbrev pub Pair : Type 0
Pair = Text × Text

-- `int(decoded.get("device") or 0)`
unfoldable pub device_number : FullJid → ℤ
device_number j = elim j.device [ none ↦ pos 0 | some z ↦ z ]

-- `f"{user}{f':{device}' if device else ''}@{server}"`
unfoldable pub with_device : Text → ℤ → Text → Text
unfolding device_part
with_device user device server = user ++ (device_part (some device) ++ (b'@' ∷ server))

-- The pair that `_add_resolved` notes for a phone number.
unfoldable pub lid_pair : Text → FullJid → Text → Pair
unfolding with_device device_number
lid_pair pn decoded lid_user =
    let server =
      if text_eq decoded.server (ascii "hosted") then ascii "hosted.lid" else ascii "lid" in
    (with_device lid_user (device_number decoded) server, pn)

-- The pair that `_add_resolved` notes for a LID.
unfoldable pub pn_pair : Text → FullJid → Text → Pair
unfolding device_number
pn_pair lid decoded pn_user =
    let server =
      if decoded.domain_type == hosted_lid_domain then ascii "hosted" else ascii "s.whatsapp.net" in
    (lid, pn_user ++ (b':' ∷ (str_int (device_number decoded) ++ (b'@' ∷ server))))

-- An address with its parts, which has a user.
unfoldable pub asked_for : (Text → Bool) → Text → Result (Option FullJid)
asked_for is_asked jid =
    if is_asked jid
    then (do
      decoded ← jid_decode jid
      ok (elim decoded [ none ↦ none | some j ↦ elim j.user [ [] ↦ none | (c ∷ user) ↦ some j ] ]))
    else ok none

-- What the cache answers, and the addresses that it does not know.
pub record Scan : Type 0 where
  pub resolved : List (Text × Pair)
  pub pending : List (Text × FullJid)
  pub cache : MappingCache

unfoldable pub scanned : Text → FullJid → Option Text → (Text → FullJid → Text → Pair) → Scan → Scan
unfolding dict_put
scanned jid decoded none pair s = record s { pending = s.pending ++ ((jid, decoded) ∷ []) }
scanned jid decoded (some user) pair s = record s {
  resolved = dict_put jid (pair jid decoded user) s.resolved;
}

-- The first loop of both lookups: `key` is the cache's key of a user.
unfoldable pub scan :
    (Text → Bool)
    → (Text → Text)
    → (Text → FullJid → Text → Pair)
    → ℕ
    → ℕ
    → List Text
    → Scan
    → Result (Unit {0}) × Scan
unfolding asked_for cache_get truthy scanned
scan is_asked key pair ttl now [] s = (ok tt, s)
scan is_asked key pair ttl now (jid ∷ jids) s = elim (asked_for is_asked jid) [
  | err e ↦ (err e, s)
  | ok none ↦ scan is_asked key pair ttl now jids s
  | ok (some decoded) ↦
      let (cached, cache) = cache_get ttl now (key decoded.user) s.cache in
      scan is_asked key pair ttl now jids
        (scanned jid decoded (truthy cached) pair (record s { cache = cache }))
]

unfoldable pub pending_users : List (Text × FullJid) → List Text
unfolding set_add
pending_users [] = []
pending_users ((jid, decoded) ∷ pending) = set_add decoded.user (pending_users pending)

-- `is_pn_user(pn) or is_hosted_pn_user(pn)`
unfoldable pub is_pn : Text → Bool
unfolding is_pn_user is_hosted_pn_user
is_pn pn = is_pn_user (some pn) || is_hosted_pn_user (some pn)

unfoldable pub is_lid : Text → Bool
unfolding is_lid_user
is_lid lid = is_lid_user (some lid)

-- The stored pairs of the users are cached.
unfoldable pub cache_stored : ℕ → ℕ → List (Text × Text) → List Text → MappingCache → MappingCache
unfolding cache_pair truthy
cache_stored ttl now stored [] cache = cache
cache_stored ttl now stored (pn_user ∷ users) cache = elim (truthy (entry_of pn_user stored)) [
  | none ↦ cache_stored ttl now stored users cache
  | some lid_user ↦ cache_stored ttl now stored users (cache_pair ttl now pn_user lid_user cache)
]

-- The address that the server is asked for.
unfoldable pub fetched_pn : Text → FullJid → Result Text
unfolding jid_normalized_user is_hosted_pn_user
fetched_pn pn decoded = do
  normalized ← jid_normalized_user pn
  ok (
      if is_hosted_pn_user (some normalized)
      then decoded.user ++ (b'@' ∷ ascii "s.whatsapp.net")
      else normalized)

-- `usync_fetch.setdefault(pn, []).append(device)`
unfoldable pub add_device : Text → ℤ → List (Text × List ℤ) → List (Text × List ℤ)
add_device pn device [] = (pn, device ∷ []) ∷ []
add_device pn device ((k, devices) ∷ fetch) =
    let rest = add_device pn device fetch in
    if text_eq k pn then (k, devices ++ (device ∷ [])) ∷ fetch else (k, devices) ∷ rest

-- The loop over what was pending: a user that the cache has by now, or else an address to ask for.
unfoldable pub settle :
    ℕ
    → ℕ
    → List (Text × FullJid)
    → Scan
    → List (Text × List ℤ)
    → Result (List (Text × List ℤ)) × Scan
unfolding cache_get truthy pn_key dict_put lid_pair fetched_pn add_device device_number
settle ttl now [] s fetch = (ok fetch, s)
settle ttl now ((pn, decoded) ∷ pending) s fetch =
    let (cached, cache) = cache_get ttl now (pn_key decoded.user) s.cache in
    elim (truthy cached) [
      | some lid_user ↦
          settle ttl now pending
            (record s {
              resolved = dict_put pn (lid_pair pn decoded lid_user) s.resolved;
              cache = cache;
            })
            fetch
      | none ↦ elim (fetched_pn pn decoded) [
        | err e ↦ (err e, record s { cache = cache })
        | ok address ↦
            settle ttl now pending (record s { cache = cache })
              (add_device address (device_number decoded) fetch)
      ]
    ]

-- `usync_fetch.get(pair["pn"], [])`
unfoldable pub devices_of : Text → List (Text × List ℤ) → List ℤ
devices_of pn [] = []
devices_of pn ((k, devices) ∷ fetch) =
    let rest = devices_of pn fetch in if text_eq k pn then devices else rest

is_99 : ℤ → Bool
is_99 (pos n) = n == 99
is_99 (negsuc n) = false

unfoldable pub device_pairs : Text → Text → List ℤ → List (Text × Pair) → List (Text × Pair)
unfolding is_99 with_device dict_put
device_pairs pn_user lid_user [] resolved = resolved
device_pairs pn_user lid_user (device ∷ devices) resolved =
    let hosted = is_99 device in
    let lid_server = if hosted then ascii "hosted.lid" else ascii "lid" in
    let pn_server = if hosted then ascii "hosted" else ascii "s.whatsapp.net" in
    let device_pn = with_device pn_user device pn_server in
    device_pairs pn_user lid_user devices
      (dict_put device_pn (with_device lid_user device lid_server, device_pn) resolved)

-- The loop over the server's answer.
unfoldable pub fetched_pairs :
    List (Text × List ℤ) → List Pair → List (Text × Pair) → Result (List (Text × Pair))
unfolding user_of devices_of device_pairs
fetched_pairs fetch [] resolved = ok resolved
fetched_pairs fetch ((lid, pn) ∷ pairs) resolved = do
  pn_decoded ← jid_decode pn
  lid_decoded ← jid_decode lid
  let pn_user = user_of pn_decoded
  let lid_user = user_of lid_decoded
  fetched_pairs fetch pairs (
      if text_eq pn_user [] || text_eq lid_user []
      then resolved
      else device_pairs pn_user lid_user (devices_of pn fetch) resolved)

-- `list(successful_pairs.values()) if successful_pairs else None`
unfoldable pub answer_of : List (Text × Pair) → Option (List Pair)
answer_of [] = none
answer_of ((jid, pair) ∷ resolved) = some (pair ∷ map (λ (p : Text × Pair). p.1) resolved)
