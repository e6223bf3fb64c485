-- ===== src/LiveLock.antt =====
-- kalshi_arbitrage/execution/live_lock.py: LiveTradingLock, the gate in front of real orders. The
-- arming file lives on disk; the environment override is a text that the process starts with.
pub mod Arming
use Prim.Native.Char.{Char, code}
use Prim.Native.String.{[] as no_text, ◌∷◌ as put_char, ◌++◌ as str_append}
use text.Mathlib.Text.{◌==◌ as str_eq, find?}
use kalshi.Common.{
  ℕ, Bool, true, false, ◌&&◌, ◌||◌, Option, none, some, String, leb, ◌==◌, if◌then◌else◌,
}
use kalshi.Config.{Config, is_live}

-- `ARM_PHRASE`
abbrev pub arm_phrase : String
arm_phrase = "I_HAVE_VALIDATED_AND_ACCEPT_REAL_MONEY_RISK"

-- What the process finds around it: the value of ARB_LIVE_TRADING_ARM (empty if unset), the text of
-- the arming file if there is one, and what the operating system allows to do with that file.
pub record ArmState : Type 0 where
  pub env : String
  pub file : Option String
  pub readable : Bool
  pub writable : Bool
  pub removable : Bool

-- The white space that `str.strip` removes, of the ASCII characters.
abbrev pub is_space : Char → Bool
is_space c =
    (code c == 32) || (leb 9 (code c) && leb (code c) 13) || (leb 28 (code c) && leb (code c) 31)

abbrev pub lstrip : String → String
lstrip no_text = ""
lstrip (put_char c s) = let rest = lstrip s in if is_space c then rest else put_char c s

abbrev pub is_empty : String → Bool
is_empty no_text = true
is_empty (put_char c s) = false

abbrev pub rstrip : String → String
rstrip no_text = ""
rstrip (put_char c s) =
    let rest = rstrip s in if is_empty rest && is_space c then "" else put_char c rest

-- `part in text`
abbrev pub contains : String → String → Bool
contains text part = elim (find? text part) [ none ↦ false | some i ↦ true ]

-- The two places of the phrase.
unfoldable pub env_carries : ArmState → Bool
env_carries a = str_eq (rstrip (lstrip a.env)) arm_phrase

unfoldable pub file_carries : ArmState → Bool
file_carries a = elim a.file [ none ↦ false | some text ↦ a.readable && contains text arm_phrase ]

unfoldable pub arm_token_present : ArmState → Bool
unfolding env_carries file_carries
arm_token_present a = if env_carries a then true else file_carries a

module _ {A : Type 0} (cfg : Config A) where
  unfoldable pub is_armed : ArmState → Bool
  unfolding arm_token_present
  is_armed a =
      if cfg.execution_enabled
      then if is_live cfg.execution_mode then arm_token_present a else false
      else false

  -- `assert_or_warn`: the answer to a gateway, and whether the warning has been given.
  unfoldable pub assert_or_warn : ArmState → Bool → (Bool × Option String) × Bool
  unfolding is_armed
  assert_or_warn a warned =
      if is_armed a then ((true, none), warned) else ((false, some "live_trading_locked"), true)

-- `arm`, which raises if the file cannot be written: then nothing has changed.
unfoldable pub arm : ArmState → Bool → Option (ArmState × Bool)
arm a warned =
    if a.writable then some (record a { file = some (str_append arm_phrase "\n") }, false) else none

-- `disarm`, which catches the error of a file that cannot be removed.
unfoldable pub disarm : ArmState → Bool → ArmState × Bool
disarm a warned = (if a.removable then record a { file = none } else a, false)
