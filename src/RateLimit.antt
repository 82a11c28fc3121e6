-- ===== src/RateLimit.antt =====
-- The handshake limiter: src/tsarchain/network/node_logic/ratelimit.py.
-- Addresses, subnets and node ids are only compared, so they are numbers, 0 being the empty string;
-- times are counted in milliseconds.
mod Tests
mod Window
mod Bans
mod Handshake
pub mod Entry
pub mod Bound
pub mod Banning
pub use Window.*
pub use Bans.*
pub use Handshake.*
