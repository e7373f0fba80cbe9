-- ===== src/Proxy.antt =====
-- internal/proxy: the requests' way through the proxy.
pub mod Status
pub mod Diagnosis
pub mod Errors
pub mod Server
pub mod Encoding
pub mod Handler
pub mod Body
pub mod Certs
pub mod Trip
pub mod Outbound
pub mod Connection
pub mod Pages
pub mod Ca
pub mod Tests
