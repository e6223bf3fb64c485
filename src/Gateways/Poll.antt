-- ===== src/Gateways/Poll.antt =====
-- kalshi_arbitrage/execution/venue_gateway.py: `_backoff_poll`. Each round that goes on has slept for
-- at least a millisecond, so the budget in milliseconds is enough fuel.
use kalshi.Common.{
  ℕ, zero, suc, ◌+◌, ◌-◌, ◌*◌, ◌≤◌, ◌<◌, ◌≡◌, refl, ◌⊎◌, inl, inr, Bool, true, false, Option, none,
  some, ltb, if◌then◌else◌, arith,
}
use kalshi.Gateways.{Call, gave, threw, Timer}

abbrev pub least : ℕ → ℕ → ℕ
least a b = if ltb b a then b else a

-- The poll gave a result or threw an exception, which ends the loop.
abbrev pub is_final : {R : Type 0} → Call (Option R) → Bool
is_final (gave none) = false
is_final (gave (some x)) = true
is_final (threw e) = true

module _ {R G : Type 0} (timer : Timer G) (cap : ℕ) (poll : G → Call (Option R) × G) where
  open timer use {now, sleep}

  -- One round: sleep for the interval or for what is left, then poll.
  unfoldable pub poll_round : ℕ → ℕ → G → Call (Option R) × G
  poll_round deadline interval g = poll (sleep (least interval (deadline - now g)) g)

  -- The `while` loop, on fuel.
  unfoldable pub poll_until : ℕ → ℕ → ℕ → G → Call (Option R) × G
  unfolding poll_round
  poll_until zero deadline interval g = (gave none, g)
  poll_until (suc fuel) deadline interval g =
      let (r, g') = poll_round deadline interval g in
      elim (ltb (now g) deadline) [
        | false ↦ (gave none, g)
        | true ↦ elim r [
          | threw e ↦ (threw e, g')
          | gave o ↦ elim o [
            | some x ↦ (gave (some x), g')
            | none ↦ poll_until fuel deadline (least (interval * 2) cap) g'
          ]
        ]
      ]

  -- A round is not run, or ends the loop, or is followed by the others.
  poll_until-cases :
      (fuel deadline interval : ℕ) (g : G)
      → let result = poll_until (suc fuel) deadline interval g in
        let here = poll_round deadline interval g in
        ((deadline ≤ now g) × (result ≡ (gave none, g)))
        ⊎ ((now g < deadline) × (is_final here.0 ≡ true) × (result ≡ here))
        ⊎ ((now g < deadline)
            × (is_final here.0 ≡ false)
            × (result ≡ poll_until fuel deadline (least (interval * 2) cap) here.1))
  unfolding poll_until poll_round
  poll_until-cases fuel deadline interval g = ground arith

  -- What the rounds keep is kept, and a result is one that a round ended with.
  module _ (P : G → Type 0) (keep : (d : ℕ) (g : G) → P g → P (poll (sleep d g)).1) where
    pub poll_until_keeps :
        (fuel deadline interval : ℕ) (g : G)
        → P g
        → let (r, g') = poll_until fuel deadline interval g in
          P g' × ((r ≡ gave none) ⊎ ((d : ℕ) × (h : G) × P h × (poll (sleep d h) ≡ (r, g'))))
    unfolding poll_until poll_round
    poll_until_keeps zero deadline interval g p = (p, inl refl)
    poll_until_keeps (suc fuel) deadline interval g p =
        let d = least interval (deadline - now g) in
        elim (poll_until-cases fuel deadline interval g) [
          | inl (late, e) ↦ rw e (p, inl refl)
          | inr (inl (early, stop, e)) ↦ rw e (keep d g p, inr (d, g, p, refl))
          | inr (inr (early, again, e)) ↦ rw e (
              poll_until_keeps fuel deadline (least (interval * 2) cap)
                (poll_round deadline interval g).1 (keep d g p))
        ]

  -- The clock: a sleep lasts at least as long as asked, and a poll does not turn it back.
  module _ (lasts : (d : ℕ) (g : G) → now g + d ≤ now (sleep d g))
      (forward : (g : G) → now g ≤ now (poll g).1) where
    poll_until_ends :
        (fuel deadline interval : ℕ) (g : G)
        → 0 < cap
        → 0 < interval
        → deadline ≤ now g + fuel
        → let (r, g') = poll_until fuel deadline interval g in
          (is_final r ≡ true) ⊎ (deadline ≤ now g')
    unfolding poll_until poll_round
    poll_until_ends zero deadline interval g c i enough = inr (omega arith)
    poll_until_ends (suc fuel) deadline interval g c i enough =
        let d = least interval (deadline - now g) in
        let slept = lasts d g in
        let polled = forward (sleep d g) in
        elim (poll_until-cases fuel deadline interval g) [
          | inl (late, e) ↦ rw e (inr late)
          | inr (inl (early, stop, e)) ↦ rw e (inl stop)
          | inr (inr (early, again, e)) ↦ rw e (
              poll_until_ends fuel deadline (least (interval * 2) cap)
                (poll_round deadline interval g).1 c (ground arith) (ground arith))
        ]

module _ {R G : Type 0} (timer : Timer G) where
  open timer use {now, sleep}

  unfoldable pub backoff_poll : ℕ → ℕ → ℕ → (G → Call (Option R) × G) → G → Call (Option R) × G
  backoff_poll budget base cap poll g = poll_until timer cap poll budget (now g + budget) base g

  -- Polling returns: with a positive first interval and a positive cap, on a clock on which a sleep
  -- lasts at least as long as asked and which no poll turns back, it ends with a result, with the
  -- exception of a poll, or with a clock that is past the budget.
  pub backoff_poll_ends :
      (budget base cap : ℕ) (poll : G → Call (Option R) × G) (g : G)
      → ((d : ℕ) (h : G) → now h + d ≤ now (sleep d h))
      → ((h : G) → now h ≤ now (poll h).1)
      → 0 < base
      → 0 < cap
      → let (r, g') = backoff_poll budget base cap poll g in
        (is_final r ≡ true) ⊎ (now g + budget ≤ now g')
  unfolding backoff_poll
  backoff_poll_ends budget base cap poll g lasts forward b c =
      poll_until_ends timer cap poll lasts forward budget (now g + budget) base g c b (omega arith)

  pub backoff_poll_keeps :
      (P : G → Type 0) (budget base cap : ℕ) (poll : G → Call (Option R) × G) (g : G)
      → ((d : ℕ) (h : G) → P h → P (poll (sleep d h)).1)
      → P g
      → let (r, g') = backoff_poll budget base cap poll g in
        P g' × ((r ≡ gave none) ⊎ ((d : ℕ) × (h : G) × P h × (poll (sleep d h) ≡ (r, g'))))
  unfolding backoff_poll
  backoff_poll_keeps P budget base cap poll g keep p =
      poll_until_keeps timer cap poll P keep budget (now g + budget) base g p
