-- ===== src/Books/Changes.antt =====
-- kalshi_arbitrage/ws_books.py: what one event does to the Polymarket client. It publishes books,
-- invalidates them, or resets the client; a property of clients that these keep, every history keeps.
use kalshi.Common.{
  ◌≡◌, ◌⊎◌, refl, inl, inr, not, ◌||◌, some, List, [], ◌∷◌, String, lookup, is_truthy,
  if◌then◌else◌, Bool-cases, Option-cases, subst, sym,
}
use kalshi.Float.{Float}
use kalshi.Books.{Level}
use kalshi.Books.Polymarket.{
  book, price_change, other_event, Change, PmClient, is_ask, or_zero, required, read_levels,
  pop_level, put_level, publish, invalidate, apply_change, apply_changes, handle_message,
  disconnected, Event, heard, lost, step, run,
}

module _ {A : Type 0} ⦃fl : Float A⦄ where
  apply_change-cases :
      (now : A) (ch : Change A) (c : PmClient A)
      → (apply_change now ch c ≡ c)
        ⊎ ((apply_change now ch c ≡ invalidate ch.asset_id c)
            ⊎ ((levels : List (Level A)) × (apply_change now ch c
                  ≡ publish now ch.asset_id levels c)))
  unfolding apply_change
  apply_change-cases now ch c = elim (Option-cases (lookup ch.asset_id c.asks)) [
    | inl absent ↦ inl (rw (absent, apply_change) refl)
    | inr (levels, held) ↦
        elim (Bool-cases (not (is_truthy (some ch.asset_id)) || not (is_ask ch.side))) [
          | inl skipped ↦ inl (rw (held, skipped, apply_change) refl)
          | inr seen ↦ elim (Option-cases (required ch.price)) [
            | inl bad ↦ inr (inl (rw (held, seen, bad, apply_change) refl))
            | inr (price, read) ↦ elim (Option-cases (or_zero ch.size)) [
              | inl bad ↦ inr (inl (rw (held, seen, read, bad, apply_change) refl))
              | inr (size, sized) ↦ inr (
                  inr (
                    if fl.le size (fl.decimal 0 1)
                        then pop_level price levels
                        else put_level price size levels,
                    rw (held, seen, read, sized, apply_change) refl,
                  ))
            ]
          ]
        ]
  ]

  -- A property that survives the three changes survives every history.
  module _ (P : PmClient A → Type 0)
      (kept_publish : (now : A) (tok : String) (levels : List (Level A)) (c : PmClient A)
        → P c
        → P (publish now tok levels c))
      (kept_invalidate : (tok : String) (c : PmClient A) → P c → P (invalidate tok c))
      (kept_disconnected : (c : PmClient A) → P c → P (disconnected c)) where
    apply_change-kept : (now : A) (ch : Change A) (c : PmClient A) → P c → P (apply_change now ch c)
    apply_change-kept now ch c h = elim (apply_change-cases now ch c) [
      | inl same ↦ subst P (sym same) h
      | inr (inl dropped) ↦ subst P (sym dropped) (kept_invalidate ch.asset_id c h)
      | inr (inr (levels, published)) ↦
          subst P (sym published) (kept_publish now ch.asset_id levels c h)
    ]

    apply_changes-kept :
        (now : A) (changes : List (Change A)) (c : PmClient A)
        → P c
        → P (apply_changes now changes c)
    unfolding apply_changes
    apply_changes-kept now [] c h = h
    apply_changes-kept now (ch ∷ rest) c h =
        apply_changes-kept now rest (apply_change now ch c) (apply_change-kept now ch c h)

    pub step-kept : (e : Event A) (c : PmClient A) → P c → P (step e c)
    unfolding step handle_message
    step-kept (heard now (book tok levels)) c h = elim (Bool-cases (is_truthy (some tok))) [
      | inl named ↦ elim (Option-cases (read_levels [] levels)) [
        | inl bad ↦ rw (named, bad, step) (kept_disconnected c h)
        | inr (ladder, read) ↦ rw (named, read, step) (kept_publish now tok ladder c h)
      ]
      | inr unnamed ↦ rw (unnamed, step) h
    ]
    step-kept (heard now (price_change changes)) c h = apply_changes-kept now changes c h
    step-kept (heard now other_event) c h = h
    step-kept lost c h = kept_disconnected c h

    pub run-kept : (es : List (Event A)) (c : PmClient A) → P c → P (run es c)
    unfolding run
    run-kept [] c h = h
    run-kept (e ∷ es) c h = run-kept es (step e c) (step-kept e c h)
