-- ===== src/Webhook.antt =====
-- The webhook of src/server.ts and src/linear/webhook-verify.ts: a delivery is authenticated, read
-- as an event of an agent session, claimed in the state store, and answered.
pub mod Verify
pub mod Event
pub mod Runs
pub mod Recovered
pub mod Handler
pub mod Settled
pub mod Gate
pub mod Stops
pub mod Naming
pub mod Recovering
pub mod Routes
pub mod Oauth
pub mod Reconciled
pub mod Aborts
pub mod Begin
mod Tests
