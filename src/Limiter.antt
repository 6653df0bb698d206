-- ===== src/Limiter.antt =====
-- The limit on what runs at once for a key (backend/internal/resourcelimit/limiter.go), as the
-- sequence of the calls of `Acquire` and of the functions that it returns; the mutex makes each of
-- them one step.
pub mod Keyed
pub mod Bounds
pub mod Slots
mod Tests
