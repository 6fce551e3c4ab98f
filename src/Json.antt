-- ===== src/Json.antt =====
-- The values that `httpx.Response.json()` returns and that the package builds as request bodies,
-- with the Python operations that it applies to them. A `dict` is a list of keys with values, each
-- key at most once; what Python raises is an `Errors.Error`.
pub mod Value
pub mod Access
