-- ===== src/Common/Date.antt =====
-- What get_asctime of fastwsgi/common.c promises.
use mathlib.Core.Bool.{false≢true}
use fastpysgi.Base.{
  ℕ, zero, suc, ◌-◌, ◌/◌, ◌%◌, ◌≤◌, ◌<◌, ◌≡◌, refl, sym, inl, inr, Bool, true, false, not, ◌&&◌,
  List, [], ◌∷◌, ◌++◌, arith, ltb, ◌==◌, Bool-cases, length, length-append, replicate,
  length-replicate, length-map, Bytes, codes,
}
use fastpysgi.Base.Print.{to_base, digit_char, decimal}
use fastpysgi.Common.Asctime.{
  Tm, padded, week_days, month_list, entry, date_text, Asctime, get_asctime,
}

-- The fields that gmtime gives, up to the year 9999.
pub record Valid (t : Tm) : Type 0 where
  pub wday : t.tm_wday < 7
  pub mday : t.tm_mday < 100
  pub mon : t.tm_mon < 12
  pub four : t.year < 10000
  pub hour : t.tm_hour < 100
  pub minute : t.tm_min < 100
  pub second : t.tm_sec < 100

one_digit : (fuel n : ℕ) → n < 10 → length (to_base 10 fuel n) ≤ 1
unfolding to_base
one_digit zero n h = omega arith
one_digit (suc fuel) n h = ground arith

-- one digit more than the quotient has
next_digit :
    (fuel n k : ℕ)
    → length (to_base 10 fuel (n / 10)) ≤ k
    → length (to_base 10 (suc fuel) n) ≤ suc k
unfolding to_base
next_digit fuel n k h = ground (arith, h, length-append (to_base 10 fuel (n / 10)) (n % 10 ∷ []))

two_digits : (fuel n : ℕ) → n < 100 → length (to_base 10 fuel n) ≤ 2
unfolding to_base
two_digits zero n h = omega arith
two_digits (suc fuel) n h = next_digit fuel n 1 (one_digit fuel (n / 10) (omega arith))

three_digits : (fuel n : ℕ) → n < 1000 → length (to_base 10 fuel n) ≤ 3
unfolding to_base
three_digits zero n h = omega arith
three_digits (suc fuel) n h = next_digit fuel n 2 (two_digits fuel (n / 10) (omega arith))

four_digits : (fuel n : ℕ) → n < 10000 → length (to_base 10 fuel n) ≤ 4
unfolding to_base
four_digits zero n h = omega arith
four_digits (suc fuel) n h = next_digit fuel n 3 (three_digits fuel (n / 10) (omega arith))

length-padded : (w n : ℕ) → length (to_base 10 (suc n) n) ≤ w → length (padded w n) ≡ w
unfolding padded decimal
length-padded w n h = omega (
  arith,
  h,
  length-append (replicate (w - length (decimal n)) b'0') (decimal n),
  length-replicate {A = ℕ} (w - length (decimal n)) b'0',
  length-map (to_base 10 (suc n) n) digit_char,
)

abbrev of_three : List Bytes → Bool
of_three [] = true
of_three (x ∷ xs) = length x == 3 && of_three xs

length-entry :
    (xs : List Bytes) (i : ℕ) → of_three xs ≡ true → i < length xs → length (entry xs i) ≡ 3
unfolding entry
length-entry [] i h l = absurd (omega arith)
length-entry (x ∷ xs) zero h l = ground arith
length-entry (x ∷ xs) (suc i) h l = length-entry xs i (ground arith) (omega arith)

all_parts :
    (day mday mon year hour minute second : Bytes)
    → length day ≡ 3
    → length mday ≡ 2
    → length mon ≡ 3
    → length year ≡ 4
    → length hour ≡ 2
    → length minute ≡ 2
    → length second ≡ 2
    → length (
        day
        ++ codes ", "
        ++ mday
        ++ codes " "
        ++ mon
        ++ codes " "
        ++ year
        ++ codes " "
        ++ hour
        ++ codes ":"
        ++ minute
        ++ codes ":"
        ++ second
        ++ codes " GMT")
      ≡ 29
all_parts day mday mon year hour minute second a b c d e f g = simp length-append (omega arith)

length-date_text : (t : Tm) → Valid t → length (date_text t) ≡ 29
unfolding date_text
length-date_text t v =
    all_parts (entry week_days t.tm_wday) (padded 2 t.tm_mday) (entry month_list t.tm_mon)
      (padded 4 t.year) (padded 2 t.tm_hour) (padded 2 t.tm_min) (padded 2 t.tm_sec)
      (length-entry week_days t.tm_wday refl v.wday)
      (length-padded 2 t.tm_mday (two_digits (suc t.tm_mday) t.tm_mday v.mday))
      (length-entry month_list t.tm_mon refl v.mon)
      (length-padded 4 t.year (four_digits (suc t.year) t.year v.four))
      (length-padded 2 t.tm_hour (two_digits (suc t.tm_hour) t.tm_hour v.hour))
      (length-padded 2 t.tm_min (two_digits (suc t.tm_min) t.tm_min v.minute))
      (length-padded 2 t.tm_sec (two_digits (suc t.tm_sec) t.tm_sec v.second))

fits_buffer : (n : ℕ) → n ≡ 29 → (ltb 0 n && ltb n 32) ≡ true
fits_buffer n h = ground arith

found_again : (now n : ℕ) → n ≡ 29 → (now == now && not (n == 0)) ≡ true
found_again now n h = ground arith

-- On the fields that gmtime gives up to the year 9999: a date that is not kept yet has 29 bytes, which
-- fit the buffer, and whatever was kept, a later call in the same second gives the same text.
pub get_asctime_lem :
    (now : ℕ) (t : Tm) (kept : Asctime)
    → Valid t
    → let (text, k) = get_asctime now t kept in
      ((now == kept.actual_time && not (length kept.actual_asctime == 0)) ≡ false
        → (text ≡ date_text t) × (length text ≡ 29))
      × ((u : Tm) → get_asctime now u k ≡ (text, k))
unfolding get_asctime
get_asctime_lem now t kept v =
    elim (Bool-cases (now == kept.actual_time && not (length kept.actual_asctime == 0))) [
      | inl y ↦ rw (get_asctime, y) (λ n. absurd (false≢true (sym n)), λ u. rw y refl)
      | inr n ↦
          rw (get_asctime, n, fits_buffer (length (date_text t)) size)
            (
              λ m. (refl, size),
              λ u. rw (get_asctime, found_again now (length (date_text t)) size) refl,
            )
    ]
  where
    size : length (date_text t) ≡ 29
    size = length-date_text t v
