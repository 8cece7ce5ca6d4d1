-- ===== src/Examples.antt =====
-- Concrete runs of the model, and the theorems at concrete inputs.
mod Sends
mod Nodes
mod Jobs
mod Secrets
mod Queues
mod Toy
mod Keys
mod Wallets
mod Backups
mod Swaps
mod Payments
mod Prepared
mod Syncs
