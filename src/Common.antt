-- ===== src/Common.antt =====
-- fastwsgi/common.h and fastwsgi/common.c: the helpers that the other parts share.
pub mod Ascii
pub mod Uri
pub mod Attributes
pub mod Options
pub mod Asctime
pub mod Date
mod Tests
pub mod Numerals
