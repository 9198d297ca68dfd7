-- ===== src/Utils/Time.antt =====
-- src/utils/time.rs
use evtx.Base.{ℕ, Bool, ◌&&◌, Option, none, some, ◌==◌, if◌then◌else◌}
use evtx.Base.Result.{ok, err, panic}
use evtx.Crates.{Crates}
use evtx.Cursor.{◌>>=◌}
use evtx.Error.{invalid_date_time_error}
use evtx.Macros.{Read, try_read_u16}

pub record SystemTime : Type 0 where
  pub year : ℕ
  pub month : ℕ
  pub day : ℕ
  pub hour : ℕ
  pub minute : ℕ
  pub second : ℕ
  pub milliseconds : ℕ

module _ ⦃x : Crates⦄ where
  -- `from_ymd_opt` and `and_hms_nano_opt` in a chain.
  unfoldable pub date_time : ℕ → ℕ → ℕ → ℕ → ℕ → ℕ → ℕ → Option x.DateTime
  date_time year month day hour minute second nano = elim (x.from_ymd_opt year month day) [
    | none ↦ none
    | some date ↦ x.and_hms_nano_opt date hour minute second nano
  ]

  -- The entire value is unset.
  unfoldable pub is_unset : SystemTime → Bool
  is_unset t =
      t.year == 0
      && (t.month == 0
          && (t.day == 0
              && (t.hour == 0 && (t.minute == 0 && (t.second == 0 && t.milliseconds == 0)))))

  -- The milliseconds are handed to `and_hms_nano_opt` as they are.
  unfoldable pub to_datetime : SystemTime → Read x.DateTime
  unfolding date_time is_unset
  to_datetime t c =
      if is_unset t
      then elim (date_time 1601 1 1 0 0 0 0) [ none ↦ panic | some u ↦ ok (u, c) ]
      else elim (date_time t.year t.month t.day t.hour t.minute t.second t.milliseconds) [
        | none ↦ err invalid_date_time_error
        | some u ↦ ok (u, c)
      ]

  unfoldable pub read_systemtime : Read x.DateTime
  unfolding to_datetime
  read_systemtime = do
    year ← try_read_u16 "<Unknown>"
    month ← try_read_u16 "<Unknown>"
    day_of_week ← try_read_u16 "<Unknown>"
    day ← try_read_u16 "<Unknown>"
    hour ← try_read_u16 "<Unknown>"
    minute ← try_read_u16 "<Unknown>"
    second ← try_read_u16 "<Unknown>"
    milliseconds ← try_read_u16 "<Unknown>"
    to_datetime (record {
      year = year;
      month = month;
      day = day;
      hour = hour;
      minute = minute;
      second = second;
      milliseconds = milliseconds;
    })
