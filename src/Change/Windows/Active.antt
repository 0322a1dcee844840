-- ===== src/Change/Windows/Active.antt =====
-- apps/ops/freeze.py: when a recurring window is active.
use decisionos.Common.{ℕ, ◌*◌, ◌%◌, ◌≤◌, ◌<◌, ◌≡◌, ◌↔◌, true, none, some, arith, ◌⊎◌}
use decisionos.Change.Windows.{
  FreezeWindow, minute_us, day_us, weekday, has_day, within, active_instant,
}

-- A window that ends on its day is active from its start to its end, both included.
within_day :
    (s e now : ℕ)
    → s < e
    → (within s e now ≡ true) ↔ ((s * minute_us ≤ now % day_us) × (now % day_us ≤ e * minute_us))
unfolding within
within_day s e now h = ground arith

-- A window whose end is not after its start is active at every moment of its day.
within_overnight : (s e now : ℕ) → s < 1440 → e ≤ s → within s e now ≡ true
unfolding within
within_overnight s e now b h = ground arith

-- A window that recurs on days of the week is active at an instant exactly if the weekday of its wall
-- clock is one of its days and, where it ends after it starts, the time of the day lies between the
-- two, both included; one that does not end after it starts is active all day on its days.
pub recurring_iff :
    (w : FreezeWindow) (s e now : ℕ)
    → w.from ≡ none
    → w.start_time ≡ some s
    → w.end_time ≡ some e
    → s < 1440
    → (active_instant w now ≡ true) ↔ (
        (has_day (weekday (w.wall now)) w.days ≡ true)
        × ((e ≤ s)
            ⊎ ((s * minute_us ≤ w.wall now % day_us) × (w.wall now % day_us ≤ e * minute_us))))
unfolding active_instant
recurring_iff w s e now f hs he b =
    ground (arith, within_day s e (w.wall now), within_overnight s e (w.wall now))
