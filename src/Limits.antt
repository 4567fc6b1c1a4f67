-- ===== src/Limits.antt =====
-- Limits and locks on Redis (src/redis/ and src/portal-auth/portal-login-throttle.service.ts).
pub mod SortedSets
pub mod Rate
pub mod Window
pub mod Serving
pub mod Slots
pub mod Lock
pub mod Throttle
pub mod Attempts
pub mod Instances
mod Tests
