-- ===== src/Tests.antt =====
-- Concrete runs of the modelled code, and examples for the conditions of the theorems.
mod Data
mod Filtering
mod Timing
mod Categorising
mod Rescoring
mod Summarising
mod Enumerating
mod Reading
mod Matching
mod Securing
mod Claiming
mod Authorising
mod Registering
