-- ===== src/Group/Builder.antt =====
-- wassupweb/signal/group/group_session_builder.py.
use wassupweb.Prelude.{ℕ, none, some, if◌then◌else◌, Bytes, Result, ◌>>=◌, ok, err, runtime_error}
use wassupweb.Group.State.{get_signing_key_public}
use wassupweb.Group.Record.{
  SenderKeyRecord, is_empty, get_sender_key_state, add_sender_key_state, set_sender_key_state,
}
use wassupweb.Group.Distribution.{DistributionMessage, make_distribution}

-- What `keyhelper` draws at random: an id, a sender key and a signing key pair.
pub record FreshKeys : Type 0 where
  pub key_id : ℕ
  pub sender_key : Bytes
  pub public : Bytes
  pub private : Bytes

unfoldable pub process : DistributionMessage → SenderKeyRecord → SenderKeyRecord
process m r = add_sender_key_state m.id m.iteration m.chain_key m.signature_key r

-- The record to store and the message to send.
unfoldable pub create : FreshKeys → SenderKeyRecord → Result (DistributionMessage × SenderKeyRecord)
create fresh r =
    let r' =
      if is_empty r
      then set_sender_key_state fresh.key_id 0 fresh.sender_key fresh.public fresh.private r
      else r in
    elim (get_sender_key_state none r') [
      | none ↦ err (runtime_error "No session state available")
      | some s ↦ do
        m ←
            make_distribution s.key_id s.chain.iteration s.chain.chain_key
              (get_signing_key_public s)
        ok (m, r')
    ]
