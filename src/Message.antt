-- ===== src/Message.antt =====
-- Messages and keyboards (lib/message, lib/buttons).
pub mod At
pub mod Count
pub mod Keyboard
pub mod Plan
mod Tests
