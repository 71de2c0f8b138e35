-- ===== src/Lib.antt =====
-- The core of wassupweb, a client of the WhatsApp web protocol: group encryption with sender keys,
-- the binary format of stanzas, the encrypted transport, and the services beside them.
--
-- Parts and files. A file under a part's folder proves what its name says.
-- - Prelude, Bytes, Text: shared names, Python exceptions as values (Prelude/Errors), integers in
--   bytes, and text as the bytes of its UTF-8 encoding (Text/Number: int and str of numbers).
-- - Crypto: the libraries that the program calls, as a record of operations (Primitives) and records
--   of their laws; Crypto/Wrappers is wassupweb/utils/crypto.py (Curve.sign, Curve.verify, hkdf).
-- - Group: wassupweb/signal/group. Keys (sender_message_key.py, sender_chain_key.py), State
--   (sender_key_state.py), Record (sender_key_record.py), Message and Distribution (the two wire
--   formats), Cipher (group_cipher.py), Builder (group_session_builder.py),
--   Name (sender_key_name.py). The stores are left out: an
--   operation takes the record that the store loads and returns the one that it saves. Ratchet says
--   which keys a state hands out, Session and Establish join both ends.
-- - Wabinary: wassupweb/wabinary. Jid (jid_utils.py), Node (types.py), Tag (the tags of constants.py),
--   Encode (encode.py), Decode (decode.py), Query (generic_utils.py). The tables of tokens are
--   arguments. The decoder's index is modelled by the bytes that are left, and the encoder's buffer by
--   the bytes that are returned.
-- - Noise: wassupweb/utils/noise_handler.py. State (keys and counters), Cert (_verify_noise_cert_chain),
--   Handshake (process_handshake), Frames (encode_frame, _process_data, decode_frame). It calls the
--   decoder of Wabinary, which is an argument, for frames of the transport.
-- - Retry: wassupweb/utils/message_retry_manager.py. Cache (_TTLOrderedCache) and Manager. An operation
--   reads the clock once, in milliseconds.
-- - Hash: wassupweb/utils/lt_hash.py. Events: wassupweb/utils/event_bus.py. Locks: KeyedMutex of
--   wassupweb/utils/make_mutex.py. Identity: wassupweb/utils/identity_change_handler.py. Keys:
--   wassupweb/utils/pre_key_manager.py and, of wassupweb/utils/auth_utils.py, the store in memory
--   (KeyStore, as one that does what is asked of a store below), make_cacheable_signal_key_store
--   (Cacheable) and add_transaction_capability (Transactions), both over any such store, whose set may
--   fail halfway. Their dictionaries are association lists or functions, their clocks arguments.
-- - Lid: wassupweb/signal/lid_mapping.py. Storing (store_lid_pn_mappings), Lookup and Queries (the two
--   lookups), over any store of Keys/KeyStore; the query of the server is an argument.
-- - Wam: wassupweb/wam/encode.py and binary_info.py. Serialize (one value), Events (events and their
--   fields), Reader (an independent reader). The tables of constants.py are arguments.
-- - Sync: wassupweb/utils/chat_utils.py, over Hash. Macs (keys and MACs), Encode
--   (encode_syncd_patch), Decode (decode_syncd_mutations, decode_syncd_patch, decode_syncd_snapshot,
--   decode_patches). JSON and external patches are arguments; ids and MACs stand for their base64 form.
-- - Tests: stand-ins for the libraries and the theorems at concrete inputs.
--
-- Fuel. write_string runs on the length of the text and one more, since the parts of an address are
-- shorter than the address; read_string and the decoder of nodes on the bytes that are left, each call
-- of which takes one at least; _get_sender_key on the distance of the two counters; hkdf and the
-- keys of mutations on the bytes asked for; _process_data on the length of the buffer, of which each frame takes three bytes.
--
-- Not modelled: network, files, logging, random numbers and the event loop; protobuf and the generated tables;
-- the socket layer, messages and media; the Rust extension. Exceptions carry the constant part of
-- their message.
pub mod Prelude
pub mod Bytes
pub mod Text
pub mod Crypto
pub mod Group
pub mod Wabinary
pub mod Noise
pub mod Retry
pub mod Hash
pub mod Events
pub mod Locks
pub mod Identity
pub mod Keys
pub mod Sync
pub mod Tests
pub mod Wam
pub mod Lid
