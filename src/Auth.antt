-- ===== src/Auth.antt =====
-- _auth.py: the Digest handshake and the session that it opens.
pub mod Digest
pub mod Token
pub mod Tasks
pub mod Manager
