-- ===== src/Books/Dirty.antt =====
-- kalshi_arbitrage/ws_books.py: the changes of the mirror beside the dirty set.
use kalshi.Common.{
  ◌≡◌, ◌⊎◌, Option, refl, subst, inl, inr, true, none, some, Option-cases, is_truthy, List, [], ◌∷◌,
  String, lookup, lookup-insert, lookup-remove, contains, contains-include, arith, Bool-cases,
}
use kalshi.Float.{Float}
use kalshi.Books.{Level, BookMirror, ladder_of, set_asks, drop, clear, pop_dirty}
use kalshi.Books.Polymarket.{Field, or_zero, PmClient, disconnected, Event, step}
use kalshi.Books.Kalshi.{
  KalshiBook, BookSide, read_side, handle_delta, KalshiMessage, orderbook_snapshot, orderbook_delta,
  other_type, KalshiWsClient, yes_key, no_key, store, handle_kalshi, drop_all, kalshi_disconnected,
}
use kalshi.Books.Feed.{
  Feed, FeedEvent, from_polymarket, from_kalshi, kalshi_lost, pm_of, kalshi_of, feed_step, feed_run,
  dirty_pairs,
}
use kalshi.Books.Changes.{step-kept}

module _ {A : Type 0} ⦃fl : Float A⦄ where
  -- Against an earlier mirror, each instrument's ladder is as it was, gone, or marked dirty.
  abbrev pub IsTracked : BookMirror A → BookMirror A → Type 0
  IsTracked earlier m =
      (k : String)
      → (lookup k m.asks ≡ lookup k earlier.asks)
        ⊎ ((lookup k m.asks ≡ none) ⊎ (contains k m.dirty ≡ true))

  set_asks-IsTracked :
      (earlier m : BookMirror A) (now : A) (tok : String) (levels : List (Level A))
      → IsTracked earlier m
      → IsTracked earlier (set_asks now tok levels m)
  unfolding set_asks
  set_asks-IsTracked earlier m now tok levels h k =
      ground
        (arith, lookup-insert tok k (ladder_of levels) m.asks, contains-include tok k m.dirty, h k)

  drop-IsTracked :
      (earlier m : BookMirror A) (tok : String)
      → IsTracked earlier m
      → IsTracked earlier (drop tok m)
  unfolding drop
  drop-IsTracked earlier m tok h k = ground (arith, lookup-remove tok k m.asks, h k)

  drop_all-IsTracked :
      (earlier : BookMirror A) (tickers : List String) (m : BookMirror A)
      → IsTracked earlier m
      → IsTracked earlier (drop_all tickers m)
  drop_all-IsTracked earlier [] m h = h
  drop_all-IsTracked earlier (t ∷ ts) m h =
      drop_all-IsTracked earlier ts (drop (no_key t) (drop (yes_key t) m)) (
        drop-IsTracked earlier (drop (yes_key t) m) (no_key t)
          (drop-IsTracked earlier m (yes_key t) h))

  step-IsTracked :
      (earlier : BookMirror A) (e : Event A) (c : PmClient A)
      → IsTracked earlier c.mirror
      → IsTracked earlier (step e c).mirror
  unfolding disconnected clear lookup
  step-IsTracked earlier =
      step-kept (λ c. IsTracked earlier c.mirror)
        (λ now tok levels c h. set_asks-IsTracked earlier c.mirror now tok levels h)
        (λ tok c h. drop-IsTracked earlier c.mirror tok h) (λ c h k. inr (inl refl))

  module _ (round6 : A → A) where
    store-IsTracked :
        (earlier : BookMirror A) (now : A) (t : String) (b : KalshiBook A) (c : KalshiWsClient A)
        → IsTracked earlier c.mirror
        → IsTracked earlier (store round6 now t b c).mirror
    store-IsTracked earlier now t b c h =
        set_asks-IsTracked earlier _ now (no_key t) _
          (set_asks-IsTracked earlier c.mirror now (yes_key t) _ h)

    -- What holds of the client behind a message that does not raise.
    abbrev Survives : BookMirror A → Option (KalshiWsClient A) → Type 0
    Survives earlier none = Unit
    Survives earlier (some c) = IsTracked earlier c.mirror

    handle_delta-Survives :
        (earlier : BookMirror A) (now : A) (t : String) (side : Option BookSide)
        (price delta : Field A)
        → (c : KalshiWsClient A) → IsTracked earlier c.mirror
        → Survives earlier (handle_delta round6 now t side price delta c)
    handle_delta-Survives earlier now t none price delta c h = h
    handle_delta-Survives earlier now t (some side) price delta c h =
        elim (Option-cases (or_zero price)) [
          | inl bad ↦ rw (bad, handle_delta) tt
          | inr (cents, priced) ↦ elim (Option-cases (or_zero delta)) [
            | inl bad ↦ rw (priced, bad, handle_delta) tt
            | inr (d, read) ↦ rw (priced, read, handle_delta) (store-IsTracked earlier now t _ c h)
          ]
        ]

    handle_kalshi-Survives :
        (earlier : BookMirror A) (now : A) (msg : KalshiMessage A) (c : KalshiWsClient A)
        → IsTracked earlier c.mirror
        → Survives earlier (handle_kalshi round6 now msg c)
    unfolding handle_kalshi
    handle_kalshi-Survives earlier now (orderbook_snapshot t yeses noes) c h =
        elim (Bool-cases (is_truthy (some t))) [
          | inr unnamed ↦ rw (unnamed, handle_kalshi) h
          | inl named ↦ elim (Option-cases (read_side round6 [] yeses)) [
            | inl bad ↦ rw (named, bad, handle_kalshi) tt
            | inr (y, read) ↦ elim (Option-cases (read_side round6 [] noes)) [
              | inl bad ↦ rw (named, read, bad, handle_kalshi) tt
              | inr (n, read') ↦
                  rw (named, read, read', handle_kalshi) (store-IsTracked earlier now t _ c h)
            ]
          ]
        ]
    handle_kalshi-Survives earlier now (orderbook_delta t side price delta) c h =
        elim (Bool-cases (is_truthy (some t))) [
          | inr unnamed ↦ rw (unnamed, handle_kalshi) h
          | inl named ↦
              rw (named, handle_kalshi) (handle_delta-Survives earlier now t side price delta c h)
        ]
    handle_kalshi-Survives earlier now other_type c h = h

    feed_step-IsTracked :
        (earlier : BookMirror A) (e : FeedEvent A) (f : Feed A)
        → IsTracked earlier f.mirror
        → IsTracked earlier (feed_step round6 e f).mirror
    unfolding feed_step kalshi_disconnected
    feed_step-IsTracked earlier (from_polymarket e) f h = step-IsTracked earlier e (pm_of f) h
    feed_step-IsTracked earlier (from_kalshi now msg) f h =
        let kept = handle_kalshi-Survives earlier now msg (kalshi_of f) h in
        elim (Option-cases (handle_kalshi round6 now msg (kalshi_of f))) [
          | inl raised ↦ rw (raised, feed_step) (drop_all-IsTracked earlier f.tickers f.mirror h)
          | inr (c, handled) ↦ rw (handled, feed_step) (subst (Survives earlier) handled kept)
        ]
    feed_step-IsTracked earlier kalshi_lost f h = drop_all-IsTracked earlier f.tickers f.mirror h

    feed_run-IsTracked :
        (earlier : BookMirror A) (es : List (FeedEvent A)) (f : Feed A)
        → IsTracked earlier f.mirror
        → IsTracked earlier (feed_run round6 es f).mirror
    unfolding feed_run
    feed_run-IsTracked earlier [] f h = h
    feed_run-IsTracked earlier (e ∷ es) f h =
        feed_run-IsTracked earlier es (feed_step round6 e f) (feed_step-IsTracked earlier e f h)

    -- However the two connections' messages, errors and losses interleave after the dirty set was
    -- last taken, each instrument's ladder in the shared mirror is the one of then, is gone, or the
    -- instrument is in the dirty set.
    pub feed_marks_dirty :
        (es : List (FeedEvent A)) (f : Feed A) (k : String)
        → let f₀ = (dirty_pairs f).1 in
          let m = (feed_run round6 es f₀).mirror in
          (lookup k m.asks ≡ lookup k f.mirror.asks)
          ⊎ ((lookup k m.asks ≡ none) ⊎ (contains k m.dirty ≡ true))
    unfolding dirty_pairs pop_dirty
    feed_marks_dirty es f = feed_run-IsTracked f.mirror es (dirty_pairs f).1 (λ k. inl refl)
