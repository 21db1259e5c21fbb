-- ===== src/Scheduler.antt =====
-- mender-mcu-integration/src/eink/eink_scheduler_core.c and eink_scheduler.c: when which image is
-- shown.
pub mod Civil
pub mod Cron
pub mod Core
pub mod Run
mod Tests
