-- ===== src/Tests.antt =====
-- The theorems at concrete inputs.
mod Rule
mod Registry
mod Session
mod Jobs
mod Zones
mod Server
mod SoloWorker
mod PartyWorker
mod PartyGroup
mod Managers
