-- ===== src/Windows/Week.antt =====
-- Whether NextWindow finds a window of a rule with days of the week.
use lifecycle_manager.Prelude.{
  ℕ, ◌+◌, ◌-◌, ◌%◌, ◌<◌, ◌≡◌, refl, ap, ◌∙◌, ◌≢◌, inl, inr, String, true, false, ◌&&◌, List, [],
  ◌∷◌, none, some, arith, ltb, if◌then◌else◌, contains, Option-cases,
}
use lifecycle_manager.Windows.Time.{Time, instant, day_seconds, day, date, weekday, day_name}
use lifecycle_manager.Windows.Policy.{
  ResolvedWindow, ResolveOptions, MaintenanceWindow, on_day, end_today, next_window,
}
use lifecycle_manager.Windows.Days.{shift, fits, suits, next_day_window-none}

-- How many days, from 1 to 7, lead from the weekday d to the next weekday k.
abbrev days_until : ℕ → ℕ → ℕ
days_until d k = if ltb d k then k - d else k + 7 - d

days_until_bounds : (d k : ℕ) → d < 7 → k < 7 → (0 < days_until d k) × (days_until d k < 8)
days_until_bounds d k h l = ground arith

days_until_lem : (n k : ℕ) → k < 7 → (n + days_until (n % 7) k) % 7 ≡ k
days_until_lem n k l = ground arith

weekday-shift : (t : Time) (j : ℕ) → weekday (shift t j) ≡ (day t + j) % 7
weekday-shift t j = omega arith

late_fits :
    (o : ResolveOptions) (b e : Time) (j : ℕ)
    → o.ongoing ≡ false
    → 0 < j
    → instant o.time < instant b + day_seconds
    → fits o (shift b j) (shift e j) ≡ true
late_fits o b e j g p f = ground arith

-- Where the window of tomorrow begins after the time asked for, as it does if both are in one zone,
-- and the rule names a day of the week, NextWindow returns a window to an option set that does not
-- count ongoing windows.
pub next_window_found :
    (mw : MaintenanceWindow) (o : ResolveOptions) (k : ℕ)
    → mw.days ≢ []
    → k < 7
    → contains mw.days (day_name k) ≡ true
    → o.ongoing ≡ false
    → instant o.time < instant (date o.time mw.begin) + day_seconds
    → (w : ResolvedWindow) × (next_window mw o ≡ some w)
unfolding next_window
next_window_found mw o k ne l c g f = elim (Option-cases (next_window mw o)) [
  | inr found ↦ found
  | inl nothing ↦ absurd (go mw.days refl nothing)
]
  where
    b : Time
    b = date o.time mw.begin

    e : Time
    e = end_today b (date o.time mw.end)

    j : ℕ
    j = days_until (day b % 7) k

    bounds : (0 < j) × (j < 8)
    bounds = days_until_bounds (day b % 7) k (omega arith) l

    on : on_day mw.days (shift b j) ≡ true
    on =
        ap (λ n. contains mw.days (day_name n)) (weekday-shift b j ∙ days_until_lem (day b) k l) ∙ c

    fit : fits o (shift b j) (shift e j) ≡ true
    fit = late_fits o b e j g bounds.0 f

    good : suits o mw.days b e j ≡ true
    good = λ i. on i && fit i

    go : (days : List String) → mw.days ≡ days → next_window mw o ≡ none → ⊥
    go [] d h = ne d
    go (x ∷ xs) d h =
        let bad : suits o (x ∷ xs) b e j ≡ false =
          next_day_window-none 8 o (x ∷ xs) b e j (rw (d, next_window) at h) bounds.1 in
        cc (ap (λ ds. suits o ds b e j) d, good, bad)
