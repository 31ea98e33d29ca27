-- ===== src/Pipeline.antt =====
-- internal/pipeline: one proxied request. `Counts` models the token counting of stream.go, `Attempt`
-- the upstream attempts, and `Call` and `Serve` the candidate loop of pipeline.go.
pub mod Counts
pub mod Errors
pub mod Answer
pub mod Attempt
pub mod World
pub mod Records
pub mod Call
pub mod Serve
pub mod Routes
pub mod Relay
pub mod Reasons
pub mod Merge
pub mod Leads
pub mod Ends
pub mod Slots
mod Tests
