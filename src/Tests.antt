-- ===== src/Tests.antt =====
-- Concrete machines, with the theorems applied to them.
pub mod Sample
pub mod Timers
pub mod Workers
pub mod Graph
pub mod History
pub mod Dash
pub mod Engine
pub mod Actor
pub mod Recovery
pub mod Parser
pub mod RoundTrip
pub mod Macro
pub mod Life
pub mod Messages
pub mod Orders
pub mod Gate
pub mod Documents
