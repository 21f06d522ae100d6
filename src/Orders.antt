-- ===== src/Orders.antt =====
-- okx/orders: the life of an order, the store of the live orders, and the messages and checks that
-- keep them in step with the exchange.
pub mod Events
pub mod Lifecycle
pub mod Store
pub mod Apply
pub mod Reconcile
pub mod Timeout
pub mod RestOrders
pub mod RoundTrip
pub mod Requests
mod Tests
