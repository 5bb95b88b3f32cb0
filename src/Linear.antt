-- ===== src/Linear.antt =====
-- src/linear/client.ts and src/linear/oauth.ts: the requests to Linear's API and the tokens that they
-- carry.
pub mod Calls
pub mod Client
pub mod Sending
pub mod Delivery
pub mod Pages
pub mod Shapes
pub mod Sessions
pub mod Queries
pub mod Cursors
pub mod Recent
pub mod Activities
pub mod Listing
pub mod Listed
pub mod Issues
pub mod Tokens
pub mod Refreshing
pub mod Spent
mod Tests
