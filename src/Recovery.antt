-- ===== src/Recovery.antt =====
-- src/state/recovery-envelope.ts: what an accepted event needs to be run again after a crash, and
-- the sealed form in which it is kept on disk.
pub mod Types
pub mod Base64
pub mod Payloads
pub mod Keyring
pub mod Envelope
pub mod RoundTrip
pub mod Rotation
pub mod Binding
mod Tests
