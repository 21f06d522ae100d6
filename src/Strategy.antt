-- ===== src/Strategy.antt =====
-- okx/strategy: the quoting of one bid and one ask.
pub mod Desk
pub mod Quoter
mod Tests
