-- ===== src/Request.antt =====
-- request/request_process.h and request/request_process.cpp.
pub mod Packet
pub mod Server
pub mod Fields
pub mod Account
pub mod Friend
pub mod Message
pub mod Voice
pub mod Writer
pub mod Sending
pub mod Dispatch
pub mod Startup
pub mod History
pub mod Reader
pub mod EndToEnd
pub mod Echo
pub mod Broken
pub mod Leftovers
