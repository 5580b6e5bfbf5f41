-- ===== src/Tests.antt =====
-- Runs of the model on concrete inputs, and the theorems at concrete inputs.
mod Common
mod Stripes
mod Policy
mod Catalog
mod Memory
mod Text
mod Responses
mod Manager
mod Pools
mod Hash
mod Server
