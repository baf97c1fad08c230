-- ===== src/Auth.antt =====
-- Accounts, sign-in and tokens.
pub mod Token
pub mod Email
pub mod Account
pub mod Steam
