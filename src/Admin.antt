-- ===== src/Admin.antt =====
-- The admin server (lib/admin): its sessions and its settings page. gin, which decodes requests and
-- writes answers, is left out: a handler gets what was decoded and gives the status and the effects.
pub mod Session
pub mod Settings
mod Tests
