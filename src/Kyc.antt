-- ===== src/Kyc.antt =====
-- The whitelist of verified accounts, kyc-whitelist/src.
pub mod Profiles
pub mod Whitelist
pub mod Uniqueness
pub mod Checks
