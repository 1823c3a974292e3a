-- ===== src/Transport.antt =====
-- internal/transport: the framed RPC stream and the vsock dialer.
pub mod Frame
pub mod Vsock
pub mod Mux
mod Samples
