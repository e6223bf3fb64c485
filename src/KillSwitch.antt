-- ===== src/KillSwitch.antt =====
-- kalshi_arbitrage/execution/kill_switch.py: the process-wide halt. The object lives in the
-- process; the sentinel file lives on disk and outlives it.
pub mod Durable
use kalshi.Common.{Bool, true, false, Option, none, some, String, if◌then◌else◌}
use kalshi.Config.{Config}

pub data Venue : Type 0 where
  kalshi_venue polymarket_venue : Venue

-- The reasons that the code trips the switch with; an operator may give any text.
pub data TripReason : Type 0 where
  circuit_open : Venue → TripReason
  unwind_failed : Option String → TripReason
  given : String → TripReason

-- What `is_active` gives as its reason.
pub data HaltReason : Type 0 where
  execution_disabled : HaltReason
  tripped_for : TripReason → HaltReason
  tripped_blank : HaltReason
  halt_sentinel_present : HaltReason

pub record KillSwitch (A : Type 0) : Type 0 where
  pub tripped : Bool
  pub reason : Option TripReason
  pub tripped_at : Option A

-- The sentinel file, and whether the operating system lets it be written and removed; where it
-- does not, the `OSError` is caught and logged.
pub record Disk : Type 0 where
  pub sentinel : Bool
  pub writable : Bool
  pub removable : Bool

-- `self._reason or "tripped"`: a missing or an empty reason counts as none.
abbrev pub reason_or_tripped : Option TripReason → HaltReason
reason_or_tripped none = tripped_blank
reason_or_tripped (some (given String.[])) = tripped_blank
reason_or_tripped (some (given (String.◌∷◌ c s))) = tripped_for (given (String.◌∷◌ c s))
reason_or_tripped (some (circuit_open v)) = tripped_for (circuit_open v)
reason_or_tripped (some (unwind_failed i)) = tripped_for (unwind_failed i)

module _ {A : Type 0} where
  -- `KillSwitch()`
  abbrev pub untripped : KillSwitch A
  untripped = record { tripped = false; reason = none; tripped_at = none }

  -- `none` is `(False, None)`; a reason `r` is `(True, r)`.
  unfoldable pub is_active : Config A → Disk → KillSwitch A → Option HaltReason
  is_active cfg disk k =
      if cfg.execution_enabled
      then if k.tripped
        then some (reason_or_tripped k.reason)
        else if disk.sentinel
        then some halt_sentinel_present
        else none
      else some execution_disabled

  unfoldable pub trip : A → TripReason → Disk → KillSwitch A → KillSwitch A × Disk
  trip t reason disk k = (
    record { tripped = true; reason = some reason; tripped_at = some t },
    if disk.writable then record disk { sentinel = true } else disk,
  )

  unfoldable pub reset : Disk → KillSwitch A → KillSwitch A × Disk
  reset disk k = (
    untripped,
    if disk.sentinel
        then if disk.removable then record disk { sentinel = false } else disk
        else disk,
  )
