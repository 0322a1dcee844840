-- ===== src/Judge/Keys.antt =====
-- apps/judge/crypto.py: the multi-key loader and the verification of signatures. What the standard
-- library computes (hexadecimal, base64, HMAC, JSON text) is a parameter.
mod Material
pub mod Loader
pub mod Verify
unfoldable pub use Material.*
