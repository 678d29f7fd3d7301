-- ===== src/Dragonfly.antt =====
-- pkg/dragonfly: a client of the Dragonfly server, around the library go-redis. The library's
-- client is not modelled: what it answers is an argument.
pub mod Errors
pub mod Retry
pub mod Keys
pub mod Address
pub mod Bytes
pub mod Config
pub mod Metrics
pub mod Info
pub mod Health
pub mod Client
mod Tests
