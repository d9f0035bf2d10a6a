-- ===== src/Retry.antt =====
-- Retrying an operation: retry/retry.go, retry/mode.go, internal/wait/wait.go and
-- internal/backoff/backoff.go. `Loop` is the loop of `Retry` over a script of what its environment
-- does, `Backoff` the delays.
mod Loop
pub mod Backoff
pub mod Rounds
pub mod Streaks
mod Tests
unfoldable pub use Loop.*
