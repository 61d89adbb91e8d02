-- ===== src/Sni.antt =====
-- internal/server/transport/sni.go: finding the server name in a TLS ClientHello, and reading the
-- ClientHello from a connection.
pub mod Parse
pub mod Inspect
pub mod Safety
pub mod Cursor
pub mod Hello
