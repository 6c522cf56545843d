-- ===== src/Inventory.antt =====
-- services/inventory: ingredients, and the orders that bring them to a location and take them out.
pub mod Store
pub mod Orders
pub mod Locations
pub mod Stock
pub mod Balance
pub mod Recorded
pub mod Tests
