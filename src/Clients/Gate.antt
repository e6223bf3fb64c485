-- ===== src/Clients/Gate.antt =====
-- kalshi_arbitrage/kalshi_executor.py: what KalshiOrderClient lets out to the venue.
use kalshi.Common.{ℕ, Bool, true, false, Option, none, ◌≡◌, ◌⊎◌, arith}
use kalshi.Config.{Config}
use kalshi.KillSwitch
use kalshi.KillSwitch.{KillSwitch, Disk}
use kalshi.LiveLock.{is_armed}
use kalshi.Gateways.{Net}
use kalshi.Clients.{
  Method, Endpoint, OrderBody, Http, is_mutating, is_delete, mutation_blocked, exchange, request,
}

module _ {A V : Type 0} (cfg : Config A) (disk : Disk) (k : KillSwitch A) (ttl_default : ℕ)
    (http : Http A V) where
  open http use {send}

  -- A request that may go out: it changes nothing at the venue, or the lock is armed and it is a
  -- cancel, or the switch is off or the order reduces risk.
  unfoldable pub May : Method → Bool → Net V → Type 0
  May method risk_reducing g =
      (is_mutating method ≡ false)
      ⊎ ((is_armed cfg g.arm ≡ true)
          × ((is_delete method ≡ true)
              ⊎ ((KillSwitch.is_active cfg disk k ≡ none) ⊎ (risk_reducing ≡ true))))

  pub request-cases :
      (method : Method) (endpoint : Endpoint) (body : Option OrderBody) (risk_reducing : Bool)
      (g : Net V)
      → let g' = (request cfg disk k ttl_default http method endpoint body risk_reducing g).1 in
        (g' ≡ g)
        ⊎ (May method risk_reducing g
            × (g' ≡ record g { venue = (send method endpoint body g.venue).1 }))
  unfolding request exchange mutation_blocked May
  request-cases method endpoint body risk_reducing g = ground arith
