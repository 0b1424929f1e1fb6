-- ===== src/Tests.antt =====
-- Sample data, and each law at a concrete input.
mod Fixtures
mod Inventory
mod Client
mod Dashboard
mod History
mod Shopping
mod Settings
