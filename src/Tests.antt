-- ===== src/Tests.antt =====
-- The theorems applied to concrete inputs.
mod Floats
mod Policies
mod Breakers
mod Budgets
mod Classifiers
mod Gates
mod Groups
mod Loops
mod Providers
mod Hedging
mod Timelines
mod Constructions
mod Clients
mod Documents
