-- ===== src/Common/Tests.antt =====
-- The theorems on the readers of fastwsgi/common.c at concrete inputs.
use fastpysgi.Base.{◌≡◌, refl, [], arith, codes}
use fastpysgi.Common.Asctime.{Tm, date_text, Asctime}
use fastpysgi.Base.Print.{to_base, digit_char}
use fastpysgi.Common.Date.{Valid}

-- Sunday, 6 November 1994, 08:49:37
abbrev moment : Tm
moment = record {
  tm_wday = 0;
  tm_mday = 6;
  tm_mon = 10;
  year = 1994;
  tm_hour = 8;
  tm_min = 49;
  tm_sec = 37;
}

moment-Valid : Valid moment
moment-Valid = record {
  wday = omega arith;
  mday = omega arith;
  mon = omega arith;
  four = omega arith;
  hour = omega arith;
  minute = omega arith;
  second = omega arith;
}

abbrev nothing_kept : Asctime
nothing_kept = record { actual_time = 0; actual_asctime = [] }

date_text_text : date_text moment ≡ codes "Sun, 06 Nov 1994 08:49:37 GMT"
unfolding date_text to_base digit_char
date_text_text = refl
