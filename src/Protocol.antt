-- ===== src/Protocol.antt =====
-- The serial protocol of project-spec/meta-user/recipes-apps/autostart/src/transmission_protocol.c.
pub mod Words
pub mod Control
pub mod Data
pub mod Receive
pub mod Slices
pub mod Files
pub mod Gmm
pub mod Samples
mod Tests
