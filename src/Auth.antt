-- ===== src/Auth.antt =====
-- modules/auth and the account check that its guards make.
pub mod UserStatusCache
pub mod RedisLock
pub mod Tokens
pub mod Guard
pub mod Codes
pub mod Login
pub mod Verification
pub mod Recovery
pub mod Sessions
pub mod OauthStates
