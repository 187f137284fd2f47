-- ===== src/Tests.antt =====
-- Tests of the definitions, and the theorems at concrete inputs.
mod Nodes
mod Sample
mod Texts
mod Packets
mod Rings
mod Rounds
mod Clients
mod Settings
mod Files
mod Processes
mod Interleavings
mod Arrivals
mod Serving
