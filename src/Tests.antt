-- ===== src/Tests.antt =====
-- The theorems at concrete inputs: messages of the wire, and a connection to a scripted server.
mod Wire
mod Message
mod Driver
mod Lob
mod Text
mod Call
