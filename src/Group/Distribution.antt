-- ===== src/Group/Distribution.antt =====
-- wassupweb/signal/group/sender_key_distribution_message.py: how a sender hands out its chain.
pub mod RoundTrip
use wassupweb.Prelude.{ℕ, ◌+◌, ◌∷◌, ◌++◌, Bytes, length, take, drop, Result, ◌>>=◌, ok}
use wassupweb.Bytes.{pack_u32, unpack_u32}

pub record DistributionMessage : Type 0 where
  pub serialized : Bytes
  pub id : ℕ
  pub iteration : ℕ
  pub chain_key : Bytes
  pub signature_key : Bytes

-- The constructor from parts; the version byte is (3 << 4) | 3.
unfoldable pub make_distribution : ℕ → ℕ → Bytes → Bytes → Result DistributionMessage
make_distribution key_id iteration chain_key signature_key = do
  id_bytes ← pack_u32 key_id
  iteration_bytes ← pack_u32 iteration
  chain_length ← pack_u32 (length chain_key)
  key_length ← pack_u32 (length signature_key)
  ok (record {
    serialized =
        0x33
        ∷ (id_bytes
            ++ (iteration_bytes ++ (chain_length ++ (chain_key ++ (key_length ++ signature_key)))));
    id = key_id;
    iteration = iteration;
    chain_key = chain_key;
    signature_key = signature_key;
  })

-- `_from_serialized`: a slice that runs past the end is cut, with no error.
unfoldable pub parse_distribution : Bytes → Result DistributionMessage
parse_distribution bytes = do
  key_id ← unpack_u32 bytes 1
  iteration ← unpack_u32 bytes 5
  chain_len ← unpack_u32 bytes 9
  let chain_key = take chain_len (drop 13 bytes)
  sig_len ← unpack_u32 bytes (13 + chain_len)
  ok (record {
    serialized = bytes;
    id = key_id;
    iteration = iteration;
    chain_key = chain_key;
    signature_key = take sig_len (drop (17 + chain_len) bytes);
  })
