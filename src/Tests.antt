-- ===== src/Tests.antt =====
-- Concrete runs of the modelled code.
mod Piping
mod Breaking
mod Storing
mod Routing
mod Scripting
mod Messaging
mod Serving
mod Standard
mod Sending
mod Administering
mod Registering
mod Formats
mod Starting
mod Streaming
