-- ===== src/Store/TimeRange/Parsing.antt =====
-- The relative times that parseRelative reads back from their text.
use the_family_vpn.Base.{
  ◌==◌, if◌then◌else◌, ℕ, ◌-◌, ◌*◌, ◌^◌, Bool, true, not, ◌&&◌, Option, none, some,
}
use the_family_vpn.Store.TimeRange.{Calendar}

-- The units of a lower-cased text, with their letters and the amount that each passes to the calendar:
-- nanoseconds, days or years.
pub data StepUnit : Type 0 where
  seconds minutes hours days weeks years : StepUnit

abbrev pub letter : StepUnit → ℕ
letter seconds = 115
letter minutes = 109
letter hours = 104
letter days = 100
letter weeks = 119
letter years = 121

abbrev pub weight : StepUnit → ℕ
weight seconds = 1000000000
weight minutes = 60000000000
weight hours = 3600000000000
weight days = 1
weight weeks = 7
weight years = 1

-- The word of a number or of its negation
abbrev pub signed_word : Bool → ℕ → ℕ
signed_word minus n = if minus && not (n == 0) then 2 ^ 64 - n else n

module _ {Time : Type 0} (calendar : Calendar Time) where
  -- What a number of units from a time is, on the calendar
  abbrev pub moved : Time → Bool → ℕ → StepUnit → Time
  moved now minus n days = calendar.add_date now 0 0 (signed_word minus n)
  moved now minus n weeks = calendar.add_date now 0 0 (signed_word minus (n * 7))
  moved now minus n years = calendar.add_date now (signed_word minus n) 0 0
  moved now minus n unit = calendar.add now (signed_word minus (n * weight unit))

  abbrev pub midnight : Time → Time
  midnight t = calendar.date_of t (calendar.year_of t) (calendar.month_of t) (calendar.day_of t)

  -- The start of the unit that a time lies in, a week starting on Monday
  abbrev pub start_of : Time → Option StepUnit → Time
  start_of t none = t
  start_of t (some days) = midnight t
  start_of t (some weeks) =
      let day = calendar.weekday_of t in
      midnight (calendar.add_date t 0 0 (signed_word true (if day == 0 then 6 else day - 1)))
  start_of t (some years) = calendar.date_of t (calendar.year_of t) 1 1
  start_of t (some unit) = calendar.truncate t (weight unit)

  abbrev pub snap_letter : Option StepUnit → Option ℕ
  snap_letter none = none
  snap_letter (some unit) = some (letter unit)
