-- ===== src/Driver.antt =====
-- The kernel driver of project-spec/meta-user/recipes-modules/axi-tangxi, and the requests that
-- project-spec/meta-user/recipes-apps/autostart/src/axitangxi.c makes of it.
pub mod Registers
pub mod Bursts
pub mod Memory
pub mod Requests
pub mod Access
pub mod Interrupts
pub mod Lifecycle
pub mod Files
pub mod Device
mod Tests
