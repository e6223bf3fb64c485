-- ===== src/KillSwitch/Durable.antt =====
-- kalshi_arbitrage/execution/kill_switch.py: a halt outlives the process, and only an operator's
-- reset ends it.
use kalshi.Common.{◌≡◌, ◌↔◌, ◌≢◌, ◌⊎◌, true, false, none, arith}
use kalshi.Config.{Config}
use kalshi.KillSwitch.{TripReason, KillSwitch, Disk, untripped, is_active, trip, reset}

module _ {A : Type 0} where
  -- After a trip no order may be placed, whatever the disk does; if the sentinel could be written,
  -- a process that starts anew is halted too.
  pub trip_halts :
      (cfg : Config A) (t : A) (r : TripReason) (disk : Disk) (k : KillSwitch A)
      → let (k', disk') = trip t r disk k in
        (is_active cfg disk' k' ≢ none)
        × ((disk.writable ≡ false) ⊎ (is_active cfg disk' untripped ≢ none))
  unfolding trip is_active
  trip_halts cfg t r disk k = ground arith

  -- A reset lifts the halt exactly when execution is enabled and the sentinel is gone: absent
  -- before, or removable. A second process's halt that cannot be removed stays in force.
  pub reset_lifts_iff :
      (cfg : Config A) (disk : Disk) (k : KillSwitch A)
      → let (k', disk') = reset disk k in
        (is_active cfg disk' k' ≡ none)
        ↔ ((cfg.execution_enabled ≡ true) × ((disk.sentinel ≡ false) ⊎ (disk.removable ≡ true)))
  unfolding reset is_active
  reset_lifts_iff cfg disk k = (λ h. ground arith, λ h. ground arith)
