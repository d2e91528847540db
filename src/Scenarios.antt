-- ===== src/Scenarios.antt =====
-- Concrete requests and records, and the theorems at them.
mod Samples
mod Stored
mod Documents
mod Routes
mod Reducer
mod Journal
mod Requests
mod Workspaces
mod Invocations
mod Snapshots
mod Outbox
mod Policies
mod Routed
