-- ===== src/Account.antt =====
-- src/account/: the account, its manager and the change of its key.
pub mod Object
pub mod Manager
pub mod KeyRollover
pub mod Fresh
pub mod Results
