-- ===== src/Operations.antt =====
-- workspaces/src/operations.rs, in its parts: the arguments of a call, the batch builder, the
-- sending of transactions with the worker's hooks, and the status of an asynchronous transaction.
pub mod Function
pub mod Batch
pub mod Env
pub mod Transact
pub mod Status
