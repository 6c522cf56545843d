-- ===== src/Incidents.antt =====
-- services/incident-manager/incident_manager: the incidents of the branches.
pub mod Store
pub mod Service
pub mod Mapping
pub mod Writes
pub mod Valid
pub mod Statuses
pub mod Seeding
pub mod Report
pub mod Summary
pub mod Stuck
pub mod Tests
