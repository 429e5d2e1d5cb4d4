-- ===== src/System/Keeping.antt =====
-- What the requests and events that move no bytes keep of a port.
pub mod Control
pub mod Events
