-- ===== src/Store.antt =====
-- mender-mcu-integration/src/eink/eink_store.c: the state, the credentials, the schedule and the
-- images in files.
pub mod Json
pub mod Atomic
pub mod Reader
pub mod Creds
pub mod Validate
pub mod Images
pub mod Accept
pub mod Decimal
pub mod Settings
pub mod Schedule
pub mod Hash
mod Tests
