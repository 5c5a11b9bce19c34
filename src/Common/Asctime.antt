-- ===== src/Common/Asctime.antt =====
-- get_asctime of fastwsgi/common.c: the text of the Date header, kept for the ticks of one second. The
-- two clocks are arguments.
use fastpysgi.Base.{
  ℕ, zero, suc, ◌-◌, not, ◌&&◌, List, [], ◌∷◌, ◌++◌, ltb, ◌==◌, if◌then◌else◌, length, replicate,
  Bytes, codes,
}
use fastpysgi.Base.Print.{decimal}

-- `struct tm`, with the year as the code prints it
pub record Tm : Type 0 where
  pub tm_wday : ℕ
  pub tm_mday : ℕ
  pub tm_mon : ℕ
  pub year : ℕ
  pub tm_hour : ℕ
  pub tm_min : ℕ
  pub tm_sec : ℕ

-- `%0<w>d`
unfoldable pub padded : ℕ → ℕ → Bytes
unfolding decimal
padded w n = replicate (w - length (decimal n)) b'0' ++ decimal n

abbrev pub week_days : List Bytes
week_days =
    codes "Sun"
    ∷ codes "Mon"
    ∷ codes "Tue"
    ∷ codes "Wed"
    ∷ codes "Thu"
    ∷ codes "Fri"
    ∷ codes "Sat"
    ∷ []

abbrev pub month_list : List Bytes
month_list =
    codes "Jan"
    ∷ codes "Feb"
    ∷ codes "Mar"
    ∷ codes "Apr"
    ∷ codes "May"
    ∷ codes "Jun"
    ∷ codes "Jul"
    ∷ codes "Aug"
    ∷ codes "Sep"
    ∷ codes "Oct"
    ∷ codes "Nov"
    ∷ codes "Dec"
    ∷ []

-- an entry of a table
unfoldable pub entry : List Bytes → ℕ → Bytes
entry [] i = []
entry (x ∷ xs) zero = x
entry (x ∷ xs) (suc i) = entry xs i

-- the text that sprintf makes; what is outside the tables does not occur
unfoldable pub date_text : Tm → Bytes
unfolding padded entry
date_text t =
    entry week_days t.tm_wday
    ++ codes ", "
    ++ padded 2 t.tm_mday
    ++ codes " "
    ++ entry month_list t.tm_mon
    ++ codes " "
    ++ padded 4 t.year
    ++ codes " "
    ++ padded 2 t.tm_hour
    ++ codes ":"
    ++ padded 2 t.tm_min
    ++ codes ":"
    ++ padded 2 t.tm_sec
    ++ codes " GMT"

-- `g_actual_time` and `g_actual_asctime`
pub record Asctime : Type 0 where
  pub actual_time : ℕ
  pub actual_asctime : Bytes

-- `get_asctime`: the text, and what is kept
unfoldable pub get_asctime : ℕ → Tm → Asctime → Bytes × Asctime
unfolding date_text
get_asctime curr_ticks t kept =
    let text = date_text t in
    if curr_ticks == kept.actual_time && not (length kept.actual_asctime == 0)
    then (kept.actual_asctime, kept)
    else if ltb 0 (length text) && ltb (length text) 32
    then (text, record { actual_time = curr_ticks; actual_asctime = text })
    else ([], kept)
