-- ===== src/Tests/Groups.antt =====
-- A group session with the stand-ins: a sender, a receiver on the same chain, and two messages.
use wassupweb.Prelude.{
  ℕ, ◌≤◌, ◌<◌, ◌≡◌, refl, none, some, [], ◌∷◌, arith, Bytes, length, take, replicate,
  length-replicate, ok, err, runtime_error,
}
use wassupweb.Bytes.{pack_u32}
use wassupweb.Crypto.Wrappers.{curve_sign}
use wassupweb.Tests.Toy.{toy, toy-IsCipher, toy-IsSignature, toy_keys, value_of}
use wassupweb.Group.Keys.{
  SenderMessageKey, SenderChainKey, get_next, get_sender_message_key, sender_message_key,
  derive_secrets,
}
use wassupweb.Group.State.{
  SenderKeyState, make_state, get_signing_key_public, set_sender_chain_key, add_sender_message_key,
  push_key,
}
use wassupweb.Group.Record.{
  SenderKeyRecord, is_empty, get_sender_key_state, find_state, last_state, put_sender_key_state,
  set_sender_key_state, add_sender_key_state, max_states,
}
use wassupweb.Group.Record.Window.{new_state, add_sender_key_state_window}
use wassupweb.Group.Message.{
  SenderKeyMessage, make_message, parse_message, get_signature, verify_signature,
}
use wassupweb.Group.Message.RoundTrip.{parse-make_message, verify-make_message}
use wassupweb.Group.Distribution.{DistributionMessage, make_distribution, parse_distribution}
use wassupweb.Group.Distribution.RoundTrip.{parse-make_distribution}
use wassupweb.Group.Cipher.{get_sender_key, catch_up, encrypt, encrypt_with, decrypt}
use wassupweb.Group.Builder.{FreshKeys, create, process}
use wassupweb.Group.Ratchet.{IsSound, message_key_at}
use wassupweb.Group.Ratchet.Answers.{IsAnswer, get_sender_key-IsAnswer, get_sender_key_once}
use wassupweb.Group.Ratchet.Skipped.{get_sender_key_skipped}
use wassupweb.Text.{text_eq}
use wassupweb.Text.Number.{pos, str_int, decimal}
use wassupweb.Group.Name.{
  SenderKeyName, equals, sender_string, hash_code, text_hash_code, hash_code-equals,
}
use wassupweb.Group.Session.{decrypt-encrypt, next_iteration}
use wassupweb.Group.Establish.{IsSound-start, process-create}

abbrev own_key : Bytes
own_key = replicate 32 8

abbrev root : SenderChainKey
root = record { iteration = 0; chain_key = 5 ∷ [] }

abbrev sender : SenderKeyState
sender = record { key_id = 7; chain = root; public = own_key; private = 9 ∷ []; message_keys = [] }

abbrev receiver : SenderKeyState
receiver = record {
  key_id = 7;
  chain = root;
  public = 5 ∷ own_key;
  private = [];
  message_keys = [];
}

abbrev no_key : SenderMessageKey
no_key = record { iteration = 0; iv = []; cipher_key = []; seed = [] }

-- The receiver's answer to message 2, which overtakes two others.
abbrev answer : SenderMessageKey × SenderKeyState
answer = value_of (no_key, receiver) (get_sender_key toy receiver 2)

answered : get_sender_key toy receiver 2 ≡ ok (answer.0, answer.1)
unfolding get_sender_key catch_up set_sender_chain_key add_sender_message_key push_key get_next
    get_sender_message_key sender_message_key derive_secrets
answered = refl

get_sender_key-IsAnswer_example : IsAnswer toy root 2 answer.0 answer.1
get_sender_key-IsAnswer_example =
    get_sender_key-IsAnswer toy root receiver 2 answer.0 answer.1 (IsSound-start toy root) answered

get_sender_key_once_example :
    get_sender_key toy answer.1 2 ≡ err (runtime_error "Received message with old counter")
get_sender_key_once_example =
    get_sender_key_once toy root receiver 2 answer.0 answer.1 (IsSound-start toy root) answered

get_sender_key_skipped_example :
    (key : SenderMessageKey) × (s' : SenderKeyState) × (s'' : SenderKeyState) × (get_sender_key toy
        receiver 2
      ≡ ok (key, s'))
    × (get_sender_key toy s' 1 ≡ ok (message_key_at toy root 1, s''))
get_sender_key_skipped_example =
    get_sender_key_skipped toy root receiver 1 2 (IsSound-start toy root) (omega arith)
      (omega arith) (omega arith)

-- A session from `create` to `decrypt`.
abbrev fresh : FreshKeys
fresh = record { key_id = 7; sender_key = 5 ∷ []; public = own_key; private = 9 ∷ [] }

abbrev no_announcement : DistributionMessage
no_announcement = record {
  id = 0;
  iteration = 0;
  chain_key = [];
  signature_key = [];
  serialized = [];
}

abbrev created : DistributionMessage × SenderKeyRecord
created = value_of (no_announcement, []) (create fresh [])

was_created : create fresh [] ≡ ok (created.0, created.1)
unfolding create is_empty set_sender_key_state make_state get_sender_key_state last_state
    get_signing_key_public make_distribution pack_u32
was_created = refl

abbrev announcement : DistributionMessage
announcement = record {
  serialized =
      0x33 ∷ 7 ∷ 0 ∷ 0 ∷ 0 ∷ 0 ∷ 0 ∷ 0 ∷ 0 ∷ 1 ∷ 0 ∷ 0 ∷ 0 ∷ 5 ∷ 33 ∷ 0 ∷ 0 ∷ 0 ∷ 5 ∷ own_key;
  id = 7;
  iteration = 0;
  chain_key = 5 ∷ [];
  signature_key = 5 ∷ own_key;
}

announced : make_distribution 7 0 (5 ∷ []) (5 ∷ own_key) ≡ ok created.0
unfolding create is_empty set_sender_key_state make_state get_sender_key_state last_state
    get_signing_key_public make_distribution pack_u32
announced = refl

process-create_example :
    (s : SenderKeyState) × (t : SenderKeyState) × (parse_distribution created.0.serialized
      ≡ ok created.0)
    × (get_sender_key_state none created.1 ≡ some s)
    × (get_sender_key_state (some s.key_id) (process created.0 []) ≡ some t)
    × IsSound toy s.chain s.chain s.message_keys
    × IsSound toy s.chain t.chain t.message_keys
    × (get_signing_key_public t ≡ 5 ∷ fresh.public)
    × (s.private ≡ fresh.private)
unfolding find_state
process-create_example =
    process-create toy fresh created.0 created.1 [] (length-replicate {A = ℕ} 32 8) was_created refl

abbrev sent : Bytes × SenderKeyRecord
sent = value_of ([], []) (encrypt toy (some (sender ∷ [])) (104 ∷ 105 ∷ []))

was_sent : encrypt toy (some (sender ∷ [])) (104 ∷ 105 ∷ []) ≡ ok (sent.0, sent.1)
unfolding encrypt encrypt_with get_sender_key_state last_state make_message get_signature curve_sign
    pack_u32 put_sender_key_state get_sender_key catch_up set_sender_chain_key
    add_sender_message_key push_key get_next get_sender_message_key sender_message_key
    derive_secrets
was_sent = refl

abbrev first_answer : SenderMessageKey × SenderKeyState
first_answer = value_of (no_key, receiver) (get_sender_key toy receiver 0)

answered_first :
    get_sender_key toy receiver (next_iteration sender) ≡ ok (first_answer.0, first_answer.1)
unfolding get_sender_key catch_up set_sender_chain_key add_sender_message_key push_key get_next
    get_sender_message_key sender_message_key derive_secrets
answered_first = refl

decrypt-encrypt_example :
    decrypt toy (some (receiver ∷ [])) sent.0
    ≡ ok (104 ∷ 105 ∷ [], put_sender_key_state (some 7) first_answer.1 (receiver ∷ []))
unfolding get_sender_key_state last_state find_state get_signing_key_public
decrypt-encrypt_example =
    decrypt-encrypt toy root sender receiver first_answer.1 (sender ∷ []) sent.1 (receiver ∷ [])
      first_answer.0 own_key (104 ∷ 105 ∷ []) sent.0 toy-IsCipher toy-IsSignature
      (toy_keys (take 32 sender.private) own_key) (length-replicate {A = ℕ} 32 8) refl
      (IsSound-start toy root) (IsSound-start toy root) refl refl was_sent answered_first

abbrev built : SenderKeyMessage
built = record {
  serialized = 0x33 ∷ 7 ∷ 0 ∷ 0 ∷ 0 ∷ 2 ∷ 0 ∷ 0 ∷ 0 ∷ 2 ∷ 0 ∷ 0 ∷ 0 ∷ 104 ∷ 105 ∷ replicate 64 9;
  message_version = 3;
  key_id = 7;
  iteration = 2;
  ciphertext = 104 ∷ 105 ∷ [];
  signature = replicate 64 9;
}

was_built : make_message toy 7 2 (104 ∷ 105 ∷ []) (9 ∷ []) ≡ ok built
unfolding make_message get_signature curve_sign pack_u32
was_built = refl

parse-make_message_example :
    (parse_message built.serialized ≡ ok built)
    × (built.key_id ≡ 7)
    × (built.iteration ≡ 2)
    × (built.ciphertext ≡ 104 ∷ 105 ∷ [])
parse-make_message_example =
    parse-make_message toy 7 2 (104 ∷ 105 ∷ []) (9 ∷ []) built toy-IsSignature was_built

verify-make_message_example : verify_signature toy built receiver ≡ ok tt
unfolding get_signing_key_public
verify-make_message_example =
    verify-make_message toy 7 2 (104 ∷ 105 ∷ []) (9 ∷ []) built receiver own_key toy-IsSignature
      (toy_keys (take 32 (9 ∷ [])) own_key) (length-replicate {A = ℕ} 32 8) refl was_built

parse-make_distribution_example :
    (parse_distribution created.0.serialized ≡ ok created.0)
    × (created.0.id ≡ 7)
    × (created.0.iteration ≡ 0)
    × (created.0.chain_key ≡ 5 ∷ [])
    × (created.0.signature_key ≡ 5 ∷ own_key)
parse-make_distribution_example =
    parse-make_distribution 7 0 (5 ∷ []) (5 ∷ own_key) created.0 announced

add_sender_key_state_window_example :
    (length (add_sender_key_state 8 0 (1 ∷ []) (2 ∷ []) (receiver ∷ [])) ≤ max_states)
    × (1 ≤ length (add_sender_key_state 8 0 (1 ∷ []) (2 ∷ []) (receiver ∷ [])))
    × (get_sender_key_state none (add_sender_key_state 8 0 (1 ∷ []) (2 ∷ []) (receiver ∷ []))
        ≡ some (new_state 8 0 (1 ∷ []) (2 ∷ []) (receiver ∷ [])))
add_sender_key_state_window_example =
    add_sender_key_state_window 8 0 (1 ∷ []) (2 ∷ []) (receiver ∷ []) (omega arith)

abbrev name : SenderKeyName
name = record { group_id = 49 ∷ []; sender = record { id = 50 ∷ []; device_id = pos 3 } }

hash_code-equals_example :
    (hash_code name ≡ hash_code name)
    × (text_hash_code name.group_id < 4294967296)
    × (text_hash_code (sender_string name.sender) < 4294967296)
unfolding equals sender_string text_eq str_int decimal
hash_code-equals_example = hash_code-equals name name refl
