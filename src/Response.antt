-- ===== src/Response.antt =====
-- fastwsgi/request.c, the second half: what the application returns becomes a response.
pub mod Body
pub mod Head
pub mod Preload
pub mod Length
pub mod Framing
mod Tests
