-- ===== src/Common/Ascii.antt =====
-- The character helpers of fastwsgi/common.h. A `char` is its byte; the result -1 of HEX_TO_DIG is
-- the byte 0xFF, which its callers compare with.
use fastpysgi.Base.{ℕ, ◌+◌, ◌-◌, Bool, ◌&&◌, leb, if◌then◌else◌}

abbrev within : ℕ → ℕ → ℕ → Bool
within lo hi c = leb lo c && leb c hi

-- ASCII_TO_LOWER
unfoldable pub ascii_to_lower : ℕ → ℕ
ascii_to_lower c = if within b'A' b'Z' c then c + (b'a' - b'A') else c

-- ASCII_TO_UPPER
unfoldable pub ascii_to_upper : ℕ → ℕ
ascii_to_upper c = if within b'a' b'z' c then c - (b'a' - b'A') else c

-- HEX_TO_DIG
unfoldable pub hex_to_dig : ℕ → ℕ
hex_to_dig c =
    if within b'0' b'9' c
    then c - b'0'
    else if within b'A' b'F' c
    then c - b'A' + 10
    else if within b'a' b'f' c
    then c - b'a' + 10
    else 0xFF
