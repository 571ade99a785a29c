-- ===== src/Tests.antt =====
-- Tests of the definitions on concrete inputs, and an example of each theorem.
mod Sample
mod Stops
mod Parser
mod Caching
mod Fetching
mod Clients
mod Keys
mod Queries
mod Workers
mod Arguments
