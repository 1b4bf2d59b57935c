-- ===== src/Order.antt =====
-- src/order/: the resources of the protocol, and the client side of the order's life.
pub mod Objects
pub mod Manager
pub mod Revocation
pub mod Fresh
pub mod Results
pub mod Once
pub mod Polling
