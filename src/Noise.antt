-- ===== src/Noise.antt =====
-- wassupweb/utils/noise_handler.py: the encrypted transport under the connection.
pub mod State
pub mod Cert
pub mod Handshake
pub mod Frames
pub mod Counters
pub mod Agreement
pub mod Stream
pub mod Cut
pub mod Fragment
pub mod Delivery
pub mod Chain
pub mod Trust
