-- ===== src/Http.antt =====
-- pkg/http: the checks before a handler of the HTTP server.
pub mod Middlewares
