-- ===== src/Store/TimeRange.antt =====
-- internal/store/timerange.go. A signed 64-bit integer is its word, below 2 ^ 64.
pub mod Matching
pub mod Parsing
use the_family_vpn.Base.{
  ltb, leb, ◌==◌, if◌then◌else◌, drop, Bytes, codes, text_eq, has_prefix, decimal, value_from,
  is_digit, all_digits, Result, ◌>>=◌, ◌>>◌, or_err, ℕ, ◌-◌, ◌*◌, ◌/◌, ◌%◌, ◌^◌, Bool, true, false,
  ◌&&◌, ◌||◌, Option, none, some, List, [], ◌∷◌, ◌++◌, ok, err,
}

-- The times of the package time. `date_of` is time.Date at midnight in the zone of its first argument,
-- with years and months counted as there; durations are words of nanoseconds. `since later earlier` is
-- the nanoseconds of Sub where its result is not negative.
pub record Calendar (Time : Type 0) : Type 0 where
  pub add : Time → ℕ → Time
  pub add_date : Time → ℕ → ℕ → ℕ → Time
  pub truncate : Time → ℕ → Time
  pub date_of : Time → ℕ → ℕ → ℕ → Time
  pub year_of : Time → ℕ
  pub month_of : Time → ℕ
  pub day_of : Time → ℕ
  pub weekday_of : Time → ℕ
  pub unix : ℕ → Time
  pub unix_milli : ℕ → Time
  pub parse : Bytes → Bytes → Option Time
  pub parse_in_local : Bytes → Bytes → Option Time
  pub after : Time → Time → Bool
  pub since : Time → Time → ℕ

-- strings.ToLower and strings.TrimSpace
pub record Text : Type 0 where
  pub to_lower : Bytes → Bytes
  pub trim_space : Bytes → Bytes

pub data TimeError : Type 0 where
  invalid_relative unknown_snap unrecognized start_after_end : TimeError

-- A signed word
abbrev pub i64 : ℕ → ℕ
i64 n = n % 2 ^ 64

abbrev pub negate : ℕ → ℕ
negate n = (2 ^ 64 - n) % 2 ^ 64

abbrev pub second_ns : ℕ
second_ns = 1000000000

abbrev pub minute_ns : ℕ
minute_ns = 60 * second_ns

abbrev pub hour_ns : ℕ
hour_ns = 60 * minute_ns

-- isNumeric
unfoldable pub is_numeric : Bytes → Bool
is_numeric [] = false
is_numeric (c ∷ cs) = all_digits (c ∷ cs)

-- strconv.ParseInt and Atoi on digits, their error being ignored: too large a value is the largest.
abbrev pub parse_int : Bytes → ℕ
parse_int cs = let n = value_from 0 cs in if ltb n (2 ^ 63) then n else 2 ^ 63 - 1

-- The class [smhdwMy]
abbrev pub is_unit : ℕ → Bool
is_unit c =
    (c == 115)
    || ((c == 109) || ((c == 104) || ((c == 100) || ((c == 119) || ((c == 77) || (c == 121))))))

-- The submatches of relativeRe
pub record Relative : Type 0 where
  pub minus : Bool
  pub amount : Bytes
  pub step : ℕ
  pub snap : Option ℕ

-- What follows the digits: a unit, and a unit to snap to after `@`
abbrev pub match_unit : Bool → Bytes → Bytes → Option Relative
match_unit minus amount (u ∷ []) =
    if is_unit u
    then some (record { minus = minus; amount = amount; step = u; snap = none })
    else none
match_unit minus amount (u ∷ at ∷ s ∷ []) =
    if is_unit u && ((at == 64) && is_unit s)
    then some (record { minus = minus; amount = amount; step = u; snap = some s })
    else none
match_unit minus amount other = none

abbrev pub take_digits : Bytes → Bytes
take_digits [] = []
take_digits (c ∷ cs) = let rest = take_digits cs in if is_digit c then c ∷ rest else []

abbrev pub drop_digits : Bytes → Bytes
drop_digits [] = []
drop_digits (c ∷ cs) = let rest = drop_digits cs in if is_digit c then rest else c ∷ cs

abbrev pub match_amount : Bool → Bytes → Bytes → Option Relative
match_amount minus [] rest = none
match_amount minus (d ∷ ds) rest = match_unit minus (d ∷ ds) rest

-- relativeRe.FindStringSubmatch
unfoldable pub match_relative : Bytes → Option Relative
match_relative [] = none
match_relative (c ∷ cs) =
    if c == 45
    then match_amount true (take_digits cs) (drop_digits cs)
    else if c == 43
    then match_amount false (take_digits cs) (drop_digits cs)
    else none

module _ {Time : Type 0} (calendar : Calendar Time) where
  -- addDuration, for an amount that is a word
  unfoldable pub add_duration : Time → ℕ → ℕ → Time
  add_duration t amount u =
      if u == 115
      then calendar.add t (i64 (amount * second_ns))
      else if u == 109
      then calendar.add t (i64 (amount * minute_ns))
      else if u == 104
      then calendar.add t (i64 (amount * hour_ns))
      else if u == 100
      then calendar.add_date t 0 0 amount
      else if u == 119
      then calendar.add_date t 0 0 (i64 (amount * 7))
      else if u == 77
      then calendar.add_date t 0 amount 0
      else if u == 121
      then calendar.add_date t amount 0 0
      else t

  -- truncateToDay
  unfoldable pub truncate_to_day : Time → Time
  truncate_to_day t =
      calendar.date_of t (calendar.year_of t) (calendar.month_of t) (calendar.day_of t)

  -- The days from Monday, Sunday being the last day of its week
  abbrev pub days_from_monday : ℕ → ℕ
  days_from_monday weekday = (if weekday == 0 then 7 else weekday) - 1

  -- snapToBoundary for a unit of one byte
  unfoldable pub snap_to_unit : Time → ℕ → Result TimeError Time
  snap_to_unit t u =
      if u == 115
      then ok (calendar.truncate t second_ns)
      else if u == 109
      then ok (calendar.truncate t minute_ns)
      else if u == 104
      then ok (calendar.truncate t hour_ns)
      else if u == 100
      then ok (truncate_to_day t)
      else if u == 119
      then ok (
          truncate_to_day
            (calendar.add_date t 0 0 (negate (days_from_monday (calendar.weekday_of t)))))
      else if u == 77
      then ok (calendar.date_of t (calendar.year_of t) (calendar.month_of t) 1)
      else if u == 121
      then ok (calendar.date_of t (calendar.year_of t) 1 1)
      else err unknown_snap

  -- snapToBoundary
  unfoldable pub snap_to_boundary : Time → Bytes → Result TimeError Time
  snap_to_boundary t (u ∷ []) = snap_to_unit t u
  snap_to_boundary t other = err unknown_snap

  abbrev pub signed_amount : Relative → ℕ
  signed_amount r = if r.minus then negate (parse_int r.amount) else parse_int r.amount

  abbrev snapped : Option ℕ → Time → Result TimeError Time
  snapped none t = ok t
  snapped (some u) t = snap_to_unit t u

  abbrev apply_relative : Option Relative → Time → Result TimeError Time
  apply_relative none now = err invalid_relative
  apply_relative (some r) now = snapped r.snap (add_duration now (signed_amount r) r.step)

  -- parseRelative
  unfoldable pub parse_relative : Bytes → Time → Result TimeError Time
  parse_relative spec now = apply_relative (match_relative spec) now

  abbrev first_parsed : (Bytes → Bytes → Option Time) → List Bytes → Bytes → Option Time
  first_parsed read [] spec = none
  first_parsed read (f ∷ fs) spec = first_of (read f spec) (first_parsed read fs spec)
    where
      first_of : Option Time → Option Time → Option Time
      first_of none other = other
      first_of (some t) other = some t

  abbrev pub formats : List Bytes
  formats =
      codes "2006-01-02T15:04:05Z07:00"
      ∷ codes "2006-01-02T15:04:05"
      ∷ codes "2006-01-02T15:04"
      ∷ codes "2006-01-02 15:04:05"
      ∷ codes "2006-01-02 15:04"
      ∷ codes "2006-01-02"
      ∷ codes "01/02/2006"
      ∷ codes "01/02/2006 15:04:05"
      ∷ []

  abbrev or_local : Option Time → Bytes → Result TimeError Time
  or_local none spec = or_err (first_parsed calendar.parse_in_local formats spec) unrecognized
  or_local (some t) spec = ok t

  -- parseAbsolute
  unfoldable pub parse_absolute : Bytes → Result TimeError Time
  parse_absolute spec = or_local (first_parsed calendar.parse formats spec) spec

  -- A time in seconds, or in milliseconds if it is above 1e12
  abbrev from_number : ℕ → Time
  from_number ts = if ltb 1000000000000 ts then calendar.unix_milli ts else calendar.unix ts

  -- parseTimeSpec after the spaces and the upper case are gone
  unfoldable pub parse_normal_spec : Bytes → Time → Result TimeError Time
  parse_normal_spec spec now =
      if text_eq spec [] || text_eq spec (codes "now")
      then ok now
      else if text_eq spec (codes "today")
      then ok (truncate_to_day now)
      else if text_eq spec (codes "yesterday")
      then ok (truncate_to_day (calendar.add now (negate (24 * hour_ns))))
      else if is_numeric spec
      then ok (from_number (parse_int spec))
      else if has_prefix spec (codes "-") || has_prefix spec (codes "+")
      then parse_relative spec now
      else if has_prefix spec (codes "@")
      then snap_to_boundary now (drop 1 spec)
      else parse_absolute spec

  module _ (text : Text) where
    -- parseTimeSpec
    unfoldable pub parse_time_spec : Bytes → Time → Result TimeError Time
    parse_time_spec spec now = parse_normal_spec (text.trim_space (text.to_lower spec)) now

    -- ParseTimeRange, for the time at the call
    unfoldable pub parse_time_range : Bytes → Bytes → Time → Result TimeError (Time × Time)
    parse_time_range earliest latest now = do
      start ← parse_time_spec earliest now
      stop ← parse_time_spec latest now
      if calendar.after start stop then err start_after_end else ok (start, stop)

  -- SuggestGranularity
  unfoldable pub suggest_granularity : Time × Time → Bytes
  suggest_granularity (start, stop) =
      let duration = calendar.since stop start in
      if leb duration hour_ns
      then codes "raw"
      else if leb duration (24 * hour_ns)
      then codes "1m"
      else codes "1h"

-- FormatDuration, for a duration that is not negative
unfoldable pub format_duration : ℕ → Bytes
format_duration d =
    let hours = d / hour_ns in
    let minutes = d / minute_ns in
    if ltb d minute_ns
    then decimal (d / second_ns) ++ codes "s"
    else if ltb d hour_ns
    then decimal minutes ++ codes "m"
    else if ltb d (24 * hour_ns)
    then (if ltb 0 (minutes % 60)
        then decimal hours ++ (codes "h" ++ (decimal (minutes % 60) ++ codes "m"))
        else decimal hours ++ codes "h")
    else (if ltb 0 (hours % 24)
        then decimal (hours / 24) ++ (codes "d" ++ (decimal (hours % 24) ++ codes "h"))
        else decimal (hours / 24) ++ codes "d")
