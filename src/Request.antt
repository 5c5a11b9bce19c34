-- ===== src/Request.antt =====
-- fastwsgi/request.c, the first half: the callbacks that the HTTP parser makes while a request is
-- read. A callback returns its verdict for the parser with the new state of the connection.
pub mod Reset
pub mod Environ
pub mod Url
pub mod Header
pub mod Body
pub mod Names
pub mod Limits
pub mod Input
pub mod Upload
pub mod Mount
mod Tests

-- What a callback returns: 0, -1, 1 (the request has no body) or HPE_PAUSED.
pub data Verdict : Type 0 where
  proceed abort no_body pause : Verdict
