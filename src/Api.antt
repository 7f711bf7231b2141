-- ===== src/Api.antt =====
-- The HTTP client (lib/requests) and the client of the QQ API (lib/qqapi). What the network does is a
-- parameter: a function from the number of the attempt to its outcome.
pub mod Http
pub mod Token
pub mod Send
pub mod Upload
pub mod Stream
mod Tests
