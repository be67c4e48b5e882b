-- ===== src/Libc/Time.antt =====
-- `gmtime_r` for times from 1970 on, and the date formats of the loggers.
use coding_demo.Base.{
  ℕ, ◌+◌, ◌-◌, ◌*◌, ◌/◌, ◌%◌, List, [], ◌∷◌, ◌++◌, All-append, arith, ◌<◌, ltb, leb, if◌then◌else◌,
}
use coding_demo.Libc.Buffer.{IsText}
use coding_demo.Libc.Decimal.{decimal, padded, decimal-IsText, padded-IsText}

-- `struct tm`, with the full year and the month from 1.
pub record Tm : Type 0 where
  pub year : ℕ
  pub month : ℕ
  pub day : ℕ
  pub hour : ℕ
  pub minute : ℕ
  pub second : ℕ

-- The civil date of a day number, counted in eras of 400 years that begin in March.
unfoldable pub gmtime : ℕ → Tm
gmtime seconds =
    let z = seconds / 86400 + 719468 in
    let doe = z % 146097 in
    let yoe = (doe - doe / 1460 + doe / 36524 - doe / 146096) / 365 in
    let doy = doe - (365 * yoe + yoe / 4 - yoe / 100) in
    let mp = (5 * doy + 2) / 153 in
    let month = if ltb mp 10 then mp + 3 else mp - 9 in
    record {
      year = yoe + z / 146097 * 400 + (if leb month 2 then 1 else 0);
      month = month;
      day = doy - (153 * mp + 2) / 5 + 1;
      hour = seconds / 3600 % 24;
      minute = seconds / 60 % 60;
      second = seconds % 60;
    }

-- `strftime` with ".%Y%m%d-%H%M%S."
unfoldable pub file_stamp : ℕ → List ℕ
file_stamp seconds =
    let t = gmtime seconds in
    b'.' ∷ decimal t.year
    ++ padded 2 t.month
    ++ padded 2 t.day
    ++ (b'-' ∷ padded 2 t.hour)
    ++ padded 2 t.minute
    ++ padded 2 t.second
    ++ b'.' ∷ []

-- `snprintf` with "%4d%02d%02d %02d:%02d:%02d"; a year has four digits up to 9999.
unfoldable pub line_stamp : ℕ → List ℕ
line_stamp seconds =
    let t = gmtime seconds in
    decimal t.year
    ++ padded 2 t.month
    ++ padded 2 t.day
    ++ (b' ' ∷ padded 2 t.hour)
    ++ (b':' ∷ padded 2 t.minute)
    ++ (b':' ∷ padded 2 t.second)

join : (xs ys : List ℕ) → IsText xs → IsText ys → IsText (xs ++ ys)
join xs ys h k = All-append (λ c. 0 < c) xs ys h k

pub line_stamp-IsText : (seconds : ℕ) → IsText (line_stamp seconds)
unfolding line_stamp
line_stamp-IsText seconds =
    let t = gmtime seconds in
    join _ _
      (join _ _
        (join _ _
          (join _ _ (join _ _ (decimal-IsText t.year) (padded-IsText 2 t.month))
            (padded-IsText 2 t.day))
          (omega arith, padded-IsText 2 t.hour))
        (omega arith, padded-IsText 2 t.minute))
      (omega arith, padded-IsText 2 t.second)
