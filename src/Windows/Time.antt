-- ===== src/Windows/Time.antt =====
-- Go's time.Time, as maintenancewindows/resolver/maintwindow.go uses it, in whole seconds.
use lifecycle_manager.Prelude.{
  ℕ, ◌+◌, ◌*◌, ◌/◌, ◌%◌, Bool, ltb, ◌==◌, String, List, [], ◌∷◌, get_elem?, none, some,
}

-- `clock` is what a clock in the time's zone shows, in seconds from the midnight that begins some
-- Sunday in the past; `west` is how far the zone lies west of the zone UTC+24h, in seconds, so that
-- their sum orders the times of all zones.
pub record Time : Type 0 where
  pub clock : ℕ
  pub west : ℕ

abbrev pub day_seconds : ℕ
day_seconds = 86400

abbrev pub instant : Time → ℕ
instant t = t.clock + t.west

-- t.Before(u), t.After(u), t.Equal(u), t.Add(d)
abbrev pub before : Time → Time → Bool
before t u = ltb (instant t) (instant u)

abbrev pub after : Time → Time → Bool
after t u = ltb (instant u) (instant t)

abbrev pub equal : Time → Time → Bool
equal t u = instant t == instant u

abbrev pub add : Time → ℕ → Time
add t d = record t { clock = t.clock + d }

abbrev pub day : Time → ℕ
day t = t.clock / day_seconds

abbrev pub time_of_day : Time → ℕ
time_of_day t = t.clock % day_seconds

-- time.Date(d.Year(), d.Month(), d.Day(), t.Hour(), t.Minute(), t.Second(), 0, t.Location())
abbrev pub date : Time → Time → Time
date d t = record { clock = day d * day_seconds + time_of_day t; west = t.west }

abbrev pub weekday : Time → ℕ
weekday t = day t % 7

-- t.Weekday().String()[0:3]
abbrev pub day_names : List String
day_names = "Sun" ∷ "Mon" ∷ "Tue" ∷ "Wed" ∷ "Thu" ∷ "Fri" ∷ "Sat" ∷ []

abbrev pub day_name : ℕ → String
day_name n = elim (get_elem? day_names n) [ none ↦ "" | some s ↦ s ]
