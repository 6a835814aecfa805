-- ===== src/Tests.antt =====
-- Concrete inputs for the theorems: the data in Sample, the theorems at them in the other children.
mod Boots
mod Connections
mod Loop
mod Packets
mod Sends
mod Pool
mod Queueing
mod Reading
mod Sample
mod Requests
mod Sessions
mod Settings
mod Talks
mod Timers
mod Writing
