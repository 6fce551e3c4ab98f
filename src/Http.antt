-- ===== src/Http.antt =====
-- _http.py: `HTTPClient`.
pub mod Status
pub mod Client
