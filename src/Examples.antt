-- ===== src/Examples.antt =====
-- Runs of the model on a sample platform, and the theorems applied at concrete inputs.
mod Data
mod Outbox
mod Log
mod Jobs
mod Records
mod Connection
mod Fence
mod Sessions
mod Sending
mod Linking
mod Clients
mod Waits
