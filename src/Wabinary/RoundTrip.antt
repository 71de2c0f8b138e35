-- ===== src/Wabinary/RoundTrip.antt =====
-- The decoder reads back what the encoder wrote.
mod Packed
pub mod Sizes
mod Address
pub mod Canonical
mod Shape
pub mod TextTrip
pub mod NodeTrip
