-- ===== src/Dispatch.antt =====
-- internal/dispatch: the rate limiter, and the table of provider usage that it counts.
pub mod Usage
pub mod RateLimit
