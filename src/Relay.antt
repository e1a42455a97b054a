-- ===== src/Relay.antt =====
-- The relay server, relay/src: the wire format, the session cache, the two packet loops, the
-- management interface and its configuration.
pub mod Protocol
pub mod Metrics
pub mod Session
pub mod Forwarder
pub mod Config
pub mod Api
pub mod System
pub mod Server
pub mod Examples
mod Tests
