-- ===== src/Tests.antt =====
-- Runs of the definitions, and the theorems applied at concrete inputs.
mod Delivery
mod Outbound
mod Guards
mod Remembered
mod Relays
mod Collation
mod Memory
mod Requests
mod Stale
mod Health
mod Settings
mod Serving
mod Brokers
mod Levels
mod Shown
mod Schema
mod Sends
