-- ===== src/LiveLock/Arming.antt =====
-- kalshi_arbitrage/execution/live_lock.py: when real orders may go out.
use Prim.Native.String.{◌++◌ as str_append}
use kalshi.Common.{◌≡◌, ◌↔◌, ◌⊎◌, refl, inl, inr, true, false, Bool, none, some, arith, Bool-cases}
use kalshi.Config.{Config, paper, is_live}
use kalshi.LiveLock.{
  ArmState, arm_phrase, contains, env_carries, file_carries, arm_token_present, is_armed,
  assert_or_warn, arm, disarm,
}

-- What `arm` writes carries the phrase.
armed_text : contains (str_append arm_phrase "\n") arm_phrase ≡ true
armed_text = refl

module _ {A : Type 0} (cfg : Config A) where
  -- Outside live mode, or with execution disabled, a gateway is refused whatever the environment and
  -- the arming file say.
  pub unarmed_outside_live :
      (a : ArmState) (warned : Bool)
      → (cfg.execution_mode ≡ paper) ⊎ (cfg.execution_enabled ≡ false)
      → assert_or_warn cfg a warned ≡ ((false, some "live_trading_locked"), true)
  unfolding assert_or_warn is_armed
  unarmed_outside_live a warned h = ground arith

  -- After an arming that went through, real orders are permitted exactly in live mode with execution
  -- enabled, if the file can be read or the environment carries the phrase. It fails exactly when the
  -- file cannot be written.
  pub arm_permits :
      (a : ArmState) (warned : Bool)
      → ((a.writable ≡ false) × (arm a warned ≡ none))
        ⊎ ((b : ArmState) × (arm a warned ≡ some (b, false))
            × ((is_armed cfg b ≡ true) ↔ (
                (cfg.execution_enabled ≡ true)
                × (is_live cfg.execution_mode ≡ true)
                × ((env_carries a ≡ true) ⊎ (a.readable ≡ true)))))
  unfolding arm is_armed arm_token_present env_carries file_carries
  arm_permits a warned = elim (Bool-cases a.writable) [
    | inl e ↦ inr (
      record a { file = some (str_append arm_phrase "\n") },
      ground arith,
      (λ h. ground (arith, armed_text), λ h. ground (arith, armed_text)),
    )
    | inr e ↦ inl (e, ground arith)
  ]

  -- After `disarm` real orders are still permitted in live mode with execution enabled if and only if
  -- the environment carries the phrase, or the arming file carries it and could not be removed.
  pub disarm_blocks_unless :
      (a : ArmState) (warned : Bool)
      → (is_armed cfg (disarm a warned).0 ≡ true) ↔ (
          (cfg.execution_enabled ≡ true)
          × (is_live cfg.execution_mode ≡ true)
          × ((env_carries a ≡ true) ⊎ ((file_carries a ≡ true) × (a.removable ≡ false))))
  unfolding disarm is_armed arm_token_present env_carries file_carries
  disarm_blocks_unless a warned = (λ h. ground arith, λ h. ground arith)
