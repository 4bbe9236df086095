-- ===== src/Tests.antt =====
-- The theorems at concrete messages, connections and pools.
mod Data
mod Bodies
mod Connections
mod Pools
mod Deliveries
mod Answers
mod Checks
mod Sessions
mod Turns
mod Walks
mod Late
mod Steady
mod Paths
mod Endings
mod Snis
mod Relays
mod RoundTrips
mod Configs
