-- ===== src/Tests.antt =====
-- Runs of the model at concrete inputs.
mod World
mod Proxy
mod Login
mod Tokens
mod Requests
mod Pushes
mod Memory
mod Queries
mod Listings
mod Network
mod Startup
mod Events
mod Moderators
