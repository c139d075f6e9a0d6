-- ===== src/Security.antt =====
-- common/authorization.py, common/identity.py, common/config.py and common/crypto.py: who may call,
-- which algorithms are allowed, and the encryption of payloads.
pub mod Identity
pub mod Authority
pub mod Algorithms
pub mod Envelope
