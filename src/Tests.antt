-- ===== src/Tests.antt =====
-- The theorems at concrete inputs.
mod Fixtures
mod Session
mod Stored
mod Flash
mod Card
mod Firmware
mod Network
mod Archive
