-- ===== src/Session/Nonces.antt =====
-- The nonces of a session of phinet-core/src/session.rs.
use phinet.Session.{Session}
