-- ===== src/Windows/Days.antt =====
-- The windows that NextWindow finds for a rule with days of the week.
use lifecycle_manager.Prelude.{
  ℕ, zero, suc, ◌+◌, ◌*◌, ◌<◌, ◌≡◌, refl, sym, ap, ◌∙◌, ◌≢◌, inl, inr, String, Bool, true, false,
  not, ◌&&◌, List, [], ◌∷◌, Option, none, some, arith, if◌then◌else◌, Bool-cases,
}
use lifecycle_manager.Windows.Time.{Time, day_seconds, before, add, date}
use lifecycle_manager.Windows.Policy.{
  ResolvedWindow, ResolveOptions, MaintenanceWindow, window_within, on_day, next_day_window,
  end_today, next_window,
}

-- k days later, by the same clock.
abbrev pub shift : Time → ℕ → Time
shift t k = record t { clock = t.clock + k * day_seconds }

-- The window is long enough or late enough for the options: it begins after the time asked for,
-- or, where ongoing windows count, it ends more than the minimal duration after that time.
abbrev pub fits : ResolveOptions → Time → Time → Bool
fits o begin end =
    if not o.ongoing then before o.time begin else before (add o.time o.min_duration) end

-- The candidate k days ahead stands on a day of the rule, and fits.
abbrev pub suits : ResolveOptions → List String → Time → Time → ℕ → Bool
suits o days begin end k = on_day days (shift begin k) && fits o (shift begin k) (shift end k)

-- `w` is the first suitable candidate among n days.
pub record IsFirst (n : ℕ) (o : ResolveOptions) (days : List String) (begin end : Time)
    (w : ResolvedWindow) : Type 0 where
  pub ahead : ℕ
  pub within : ahead < n
  pub begins : w.begin ≡ shift begin ahead
  pub ends : w.end ≡ shift end ahead
  pub suitable : suits o days begin end ahead ≡ true
  pub earliest : (j : ℕ) → j < ahead → suits o days begin end j ≡ false

shift-add : (t : Time) (k : ℕ) → shift (add t day_seconds) k ≡ shift t (suc k)
shift-add t k = ap (λ c. record t { clock = c }) (omega arith)

shift-zero : (t : Time) → shift t zero ≡ t
shift-zero t = ap (λ c. record t { clock = c }) (omega arith)

suits-suc :
    (o : ResolveOptions) (days : List String) (begin end : Time) (k : ℕ)
    → suits o days (add begin day_seconds) (add end day_seconds) k ≡ suits o days begin end (suc k)
suits-suc o days begin end k =
    λ i. on_day days (shift-add begin k i) && fits o (shift-add begin k i) (shift-add end k i)

suits-zero :
    (o : ResolveOptions) (days : List String) (begin end : Time)
    → suits o days begin end zero ≡ (on_day days begin && fits o begin end)
suits-zero o days begin end =
    λ i. on_day days (shift-zero begin i) && fits o (shift-zero begin i) (shift-zero end i)

within_lem :
    (o : ResolveOptions) (begin end : Time)
    → window_within o begin end
      ≡ (if fits o begin end then some (record { begin = begin; end = end }) else none)
unfolding window_within
within_lem o begin end = ground arith

-- The tests of one round of the loop, on any day and any rest.
round :
    (on fit : Bool) (w : ResolvedWindow) (rest : Option ResolvedWindow)
    → (if not on
        then rest
        else elim (if fit then some w else none) [ some v ↦ some v | none ↦ rest ])
      ≡ (if on && fit then some w else rest)
round on fit w rest = ground arith

next_day_window-suc :
    (n : ℕ) (o : ResolveOptions) (days : List String) (begin end : Time)
    → next_day_window (suc n) o days begin end ≡ (
        if on_day days begin && fits o begin end
        then some (record { begin = begin; end = end })
        else next_day_window n o days (add begin day_seconds) (add end day_seconds))
unfolding next_day_window
next_day_window-suc n o days begin end =
    let rest = next_day_window n o days (add begin day_seconds) (add end day_seconds) in
    (λ i.
      if not (on_day days begin)
      then rest
      else elim (within_lem o begin end i) [ some v ↦ some v | none ↦ rest ])
    ∙ round (on_day days begin) (fits o begin end) (record { begin = begin; end = end }) rest

before_suc :
    (p : ℕ → Bool) (k : ℕ)
    → p zero ≡ false
    → ((j : ℕ) → j < k → p (suc j) ≡ false)
    → (j : ℕ) → j < suc k
    → p j ≡ false
before_suc p k h g zero l = h
before_suc p k h g (suc j) l = g j (omega arith)

pub next_day_window-some :
    (n : ℕ) (o : ResolveOptions) (days : List String) (begin end : Time) (w : ResolvedWindow)
    → next_day_window n o days begin end ≡ some w
    → IsFirst n o days begin end w
unfolding next_day_window
next_day_window-some zero o days begin end w h = cc
next_day_window-some (suc n) o days begin end w h =
    elim (Bool-cases (on_day days begin && fits o begin end)) [
      | inl yes_now ↦
          let e : ◌≡◌ {A = Option ResolvedWindow} (some (record { begin = begin; end = end }))
              (some w) =
            (rw (next_day_window-suc n o days begin end, yes_now) at h) in
          record {
            ahead = 0;
            within = omega arith;
            begins = some_begin _ w e ∙ sym (shift-zero begin);
            ends = some_end _ w e ∙ sym (shift-zero end);
            suitable = suits-zero o days begin end ∙ yes_now;
            earliest = λ j l. absurd (omega arith);
          }
      | inr not_now ↦
          let f =
            next_day_window-some n o days (add begin day_seconds) (add end day_seconds) w
              (rw (next_day_window-suc n o days begin end, not_now) at h) in
          record {
            ahead = suc f.ahead;
            within = omega (arith, f.within);
            begins = f.begins ∙ shift-add begin f.ahead;
            ends = f.ends ∙ shift-add end f.ahead;
            suitable = sym (suits-suc o days begin end f.ahead) ∙ f.suitable;
            earliest =
                before_suc (suits o days begin end) f.ahead (suits-zero o days begin end ∙ not_now)
                  (λ j l. sym (suits-suc o days begin end j) ∙ f.earliest j l);
          }
    ]
  where
    some_begin :
        (v u : ResolvedWindow)
        → ◌≡◌ {A = Option ResolvedWindow} (some v) (some u)
        → u.begin ≡ v.begin
    some_begin v u e = cc

    some_end :
        (v u : ResolvedWindow) → ◌≡◌ {A = Option ResolvedWindow} (some v) (some u) → u.end ≡ v.end
    some_end v u e = cc

if_none :
    (b : Bool) (w : ResolvedWindow) (o : Option ResolvedWindow)
    → (if b then some w else o) ≡ none
    → (b ≡ false) × (o ≡ none)
if_none b w o h = ground arith

pub next_day_window-none :
    (n : ℕ) (o : ResolveOptions) (days : List String) (begin end : Time) (j : ℕ)
    → next_day_window n o days begin end ≡ none
    → j < n
    → suits o days begin end j ≡ false
next_day_window-none zero o days begin end j h l = absurd (omega arith)
next_day_window-none (suc n) o days begin end zero h l =
    suits-zero o days begin end
    ∙ (if_none _ _ _ (sym (next_day_window-suc n o days begin end) ∙ h)).0
next_day_window-none (suc n) o days begin end (suc j) h l =
    sym (suits-suc o days begin end j)
    ∙ next_day_window-none n o days (add begin day_seconds) (add end day_seconds) j
        (if_none _ _ _ (sym (next_day_window-suc n o days begin end) ∙ h)).1 (omega arith)

-- For a rule with days of the week, a window that NextWindow returns is the first of the eight
-- candidates, from the day of the time asked for on, that stands on a day of the rule and fits the
-- options. No earlier candidate does.
pub next_window-IsFirst :
    (mw : MaintenanceWindow) (o : ResolveOptions) (w : ResolvedWindow)
    → mw.days ≢ []
    → next_window mw o ≡ some w
    → IsFirst 8 o mw.days
        (date o.time mw.begin)
        (end_today (date o.time mw.begin) (date o.time mw.end))
        w
unfolding next_window
next_window-IsFirst mw o w h e = go mw.days refl
  where
    go :
        (days : List String)
        → mw.days ≡ days
        → IsFirst 8 o mw.days
            (date o.time mw.begin)
            (end_today (date o.time mw.begin) (date o.time mw.end))
            w
    go [] d = absurd (h d)
    go (x ∷ xs) d = rw d (next_day_window-some 8 o (x ∷ xs) _ _ w (rw (d, next_window) at e))
