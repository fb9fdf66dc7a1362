-- ===== src/Windows/Midnight.antt =====
-- Windows that go through midnight.
use lifecycle_manager.Prelude.{ℕ, ◌+◌, ◌-◌, ◌*◌, ◌≤◌, ◌<◌, ◌≡◌, ◌≢◌, true, false, [], some, arith}
use lifecycle_manager.Windows.Time.{Time, instant, day_seconds, day, time_of_day, date}
use lifecycle_manager.Windows.Policy.{
  ResolvedWindow, ResolveOptions, MaintenanceWindow, on_day, next_window,
}
use lifecycle_manager.Windows.Active.{window_contains}
use lifecycle_manager.Windows.Days.{shift, next_window-IsFirst}

-- The window of a rule that began on the day before `now` and ends on the day of `now`.
abbrev pub last_night : MaintenanceWindow → Time → ResolvedWindow
last_night mw now = record {
  begin = record {
    clock = (day now - 1) * day_seconds + time_of_day mw.begin;
    west = mw.begin.west;
  };
  end = date now mw.end;
}

-- A rule of days through midnight, in the zone of `now`, whose window of the day before contains
-- `now`.
pub record InLastNight (mw : MaintenanceWindow) (now : Time) : Type 0 where
  pub has_days : mw.days ≢ []
  pub same_zone : (mw.begin.west ≡ now.west) × (mw.end.west ≡ now.west)
  pub second_day : 0 < day now
  pub through_midnight : time_of_day mw.end ≤ time_of_day mw.begin
  pub before_end : time_of_day now < time_of_day mw.end
  pub day_before : on_day mw.days (last_night mw now).begin ≡ true

starts_later :
    (mw : MaintenanceWindow) (now : Time)
    → InLastNight mw now
    → instant now < instant (date now mw.begin)
starts_later mw now h = omega (arith, h.through_midnight, h.before_end, h.same_zone.0)

contains_last_night :
    (mw : MaintenanceWindow) (now : Time)
    → InLastNight mw now
    → window_contains (last_night mw now) now ≡ true
contains_last_night mw now h =
    ground (arith, h.second_day, h.through_midnight, h.before_end, h.same_zone.0, h.same_zone.1)

later_begin :
    (b now : Time) (k : ℕ) (w : ResolvedWindow)
    → instant now < instant b
    → w.begin ≡ shift b k
    → window_contains w now ≡ false
later_begin b now k w l e = ground arith

-- After midnight, in a window that began on the day before, a window that NextWindow returns,
-- whatever the options are, does not contain the present time, although the window of the day
-- before does.
pub last_night_missed :
    (mw : MaintenanceWindow) (o : ResolveOptions) (w : ResolvedWindow)
    → InLastNight mw o.time
    → next_window mw o ≡ some w
    → (window_contains (last_night mw o.time) o.time ≡ true) × (window_contains w o.time ≡ false)
last_night_missed mw o w h e =
    let f = next_window-IsFirst mw o w h.has_days e in
    (
      contains_last_night mw o.time h,
      later_begin (date o.time mw.begin) o.time f.ahead w (starts_later mw o.time h) f.begins,
    )
