-- ===== src/Slave.antt =====
-- The slave of project-spec/meta-user/recipes-apps/autostart/src/main.c: what it keeps for each
-- picture, and what it does with a frame of the master.
pub mod State
pub mod Process
pub mod Encode
pub mod Files
pub mod Network
pub mod Commands
pub mod Isolation
pub mod Invariant
pub mod Served
pub mod Upload
pub mod Download
pub mod Options
mod Tests
