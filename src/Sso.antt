-- ===== src/Sso.antt =====
-- Sign-on: src/core/sso.
pub mod Otp
