-- ===== src/Utils.antt =====
-- mymuduo/utils: what the other parts share.
pub mod Atomic
mod Tests
