-- ===== src/Witness.antt =====
-- Runs of the models on concrete values, one for each theorem that has conditions.
mod RateLimits
mod Accounting
mod Inbounds
mod Elections
mod Requests
mod Nodes
mod Subscribers
mod Addresses
mod Operations
mod Specs
mod Accounts
mod Fleets
