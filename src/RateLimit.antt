-- ===== src/RateLimit.antt =====
-- master/src/ratelimit.rs: the two in-memory limiters. Instants and durations are nanoseconds.
pub mod Clock
pub mod Login
pub mod Subscription
pub use Clock.*
