-- ===== src/Tests.antt =====
-- Runs on concrete data, and each theorem at an input where its hypotheses hold.
mod Lists
mod Indexes
mod Expiries
mod Points
mod Snapshots
mod Readers
mod Values
mod Services
mod Servers
mod Rankings
mod Queues
mod Pools
mod Wands
mod Searches
mod Parsers
