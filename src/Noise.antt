-- ===== src/Noise.antt =====
-- src/noise/: the trust in peers and the frames of the encrypted transport. The cryptography is the
-- snow crate's.
pub mod Text
pub mod KnownPeers
pub mod Trust
pub mod Acceptance
pub mod Parsing
pub mod RoundTrip
pub mod Transport
pub mod Framing
pub mod Tests
