-- ===== src/Handles.antt =====
-- The handles on a network: the worker, accounts and contracts. The worker that an account holds is the
-- client of the environment; its hooks are an argument.
pub mod OfWorker
pub mod OfSandbox
pub mod Experimental
pub mod OfAccount
pub mod OfContract
pub mod Credentials
pub mod Sent
