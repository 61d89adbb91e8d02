-- ===== src/Http.antt =====
-- internal/server/transport/http_preread.go: finding the Host of a cleartext HTTP/1.x request, and
-- reading the request header from a connection.
pub mod Host
pub mod RequestLine
pub mod Headers
pub mod Safety
pub mod Preread
