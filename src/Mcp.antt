-- ===== src/Mcp.antt =====
-- transport/mcp: the tool server through which a provider's turn records its action intents. `Sink`
-- is sink.go, `Registry` registry.go, `Tools` the handlers of tools.go,
-- `Advertised` its schemas, `Logging` logging.go.
pub mod Sink
pub mod Registry
pub mod Tools
pub mod Accepts
pub mod Steps
pub mod Drained
pub mod Advertised
pub mod Logging
