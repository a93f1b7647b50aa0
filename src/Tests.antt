-- ===== src/Tests.antt =====
-- The theorems at concrete inputs, and runs of the definitions.
mod Admin
mod RateLimits
mod Guard
mod Rotation
mod Login
mod Recovery
mod Sessions
mod Accounts
mod Codes
mod Verification
mod Retries
mod Sections
mod Pages
mod Drafts
mod Tracking
