-- ===== src/Wabinary.antt =====
-- The binary node format (wassupweb/wabinary): addresses, nodes, the encoder and the decoder.
pub mod Jid
pub mod Tag
pub mod Node
pub mod Query
pub mod Encode
pub mod Decode
pub mod RoundTrip
