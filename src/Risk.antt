-- ===== src/Risk.antt =====
-- okx/risk: the checks before an order is sent, the kill switch, the balances and the position.
pub mod Checks
pub mod KillSwitch
pub mod Account
pub mod Position
mod Tests
