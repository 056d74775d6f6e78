-- ===== src/Examples.antt =====
-- The theorems at concrete inputs.
mod Memory
mod Stores
mod Requests
mod Systems
mod Meetings
mod Commits
mod Loads
mod Nodes
mod Servers
mod Networks
mod Models
mod Frames
mod Rounds
mod Sockets
mod Trades
mod Gossips
mod Mains
mod Waits
