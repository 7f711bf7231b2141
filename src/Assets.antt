-- ===== src/Assets.antt =====
-- Images for markdown (lib/assets): how an input is decoded, how the hosts are chosen, and how an
-- image becomes a public URL.
pub mod Input
pub mod Host
pub mod Markdown
pub mod Manager
mod Tests
