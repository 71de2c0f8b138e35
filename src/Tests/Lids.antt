-- ===== src/Tests/Lids.antt =====
-- Pairs of phone numbers and LIDs.
use wassupweb.Prelude.{
  ◌≡◌, refl, true, Option, none, some, List, [], ◌∷◌, arith, Result, ok, err, runtime_error,
}
use wassupweb.Text.{Text, ascii, text_eq, ends_with, split_at}
use wassupweb.Text.Number.{pos, py_int}
use wassupweb.Wabinary.Jid.{
  FullJid, jid_decode, decode_parts, first_piece, device_of, domain_of, agent_domain, is_lid_user,
  is_pn_user,
}
use wassupweb.Keys.{Store, store_get}
use wassupweb.Keys.Cacheable.{dict_of}
use wassupweb.Keys.KeyStore.{in_memory, entry_of}
use wassupweb.Locks.{update}
use wassupweb.Lid.{LidMappingStore, truthy, cache_get, renewed, value_in, set_add, dict_put, pn_key}
use wassupweb.Lid.Storing.{
  validated_pairs, users_of, both_users, user_of, is_pair, store_lid_pn_mappings, store_pairs,
  look_up, note, fill, take_all, take_stored, pair_map, is_known, write_news, batch_data,
}
use wassupweb.Lid.Lookup.{Pair, lid_pair, is_pn}
use wassupweb.Lid.Queries.{get_lids_for_pns}
use wassupweb.Lid.Loops.{mentions}
use wassupweb.Lid.Found.{get_lids_for_pns-store_lid_pn_mappings}

abbrev no_mappings : LidMappingStore (Store Text)
no_mappings = record { cache = λ key. none; keys = λ key_type id. none }

-- A pair of which one address is missing, and a whole one.
abbrev pairs : List (Option Text × Option Text)
pairs =
    (some (ascii "77@lid"), none) ∷ (some (ascii "12@lid"), some (ascii "45@s.whatsapp.net")) ∷ []

abbrev phone : Text
phone = ascii "45:2@s.whatsapp.net"

abbrev phone_parts : FullJid
phone_parts = record {
  user = ascii "45";
  server = ascii "s.whatsapp.net";
  device = some (pos 2);
  domain_type = 0;
}

pairs_lem : validated_pairs pairs ≡ ok ((ascii "45", ascii "12") ∷ [])
unfolding validated_pairs users_of both_users user_of is_pair truthy is_lid_user is_pn_user
    jid_decode decode_parts first_piece device_of domain_of agent_domain text_eq ends_with split_at
pairs_lem = refl

phone_lem : jid_decode phone ≡ ok (some phone_parts)
unfolding jid_decode decode_parts first_piece device_of domain_of agent_domain text_eq split_at
    py_int
phone_lem = refl

phone-is_pn : is_pn phone ≡ true
unfolding is_pn is_pn_user text_eq ends_with
phone-is_pn = refl

mentioned : mentions (ascii "45") ((ascii "45", ascii "12") ∷ []) ≡ true
unfolding mentions text_eq
mentioned = refl

stored : (store_lid_pn_mappings (in_memory Text) 1000 100 pairs no_mappings).0 ≡ ok tt
unfolding store_lid_pn_mappings store_pairs look_up note cache_get renewed value_in fill take_all
    take_stored pair_map is_known write_news entry_of truthy store_get set_add dict_put update
    pn_key batch_data dict_of validated_pairs users_of both_users user_of is_pair is_lid_user
    is_pn_user jid_decode decode_parts first_piece device_of domain_of agent_domain text_eq
    ends_with split_at
stored = refl

-- Nobody is asked.
abbrev nobody : List Text → Result (Option (List Pair))
nobody pns = err (runtime_error "no connection")

get_lids_for_pns-store_lid_pn_mappings_example :
    (get_lids_for_pns
      (in_memory Text)
      1000
      nobody
      500
      (phone ∷ [])
      (store_lid_pn_mappings (in_memory Text) 1000 100 pairs no_mappings).1).0
    ≡ ok (some (lid_pair phone phone_parts (ascii "12") ∷ []))
get_lids_for_pns-store_lid_pn_mappings_example =
    get_lids_for_pns-store_lid_pn_mappings (in_memory Text) 1000 100 500 nobody pairs
      ((ascii "45", ascii "12") ∷ []) b'4' b'1' (b'5' ∷ []) (b'2' ∷ []) phone phone_parts
      no_mappings pairs_lem ((λ e. refl), tt) mentioned stored (omega arith) (omega arith)
      phone-is_pn phone_lem refl
