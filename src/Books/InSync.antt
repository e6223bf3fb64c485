-- ===== src/Books/InSync.antt =====
-- kalshi_arbitrage/ws_books.py: the mirror beside the Polymarket client's own books.
use kalshi.Common.{
  ◌≡◌, refl, Option, none, some, List, String, lookup, lookup-insert, lookup-remove, arith,
}
use kalshi.Float.{Float}
use kalshi.Books.{Level, ladder_of, set_asks, drop, clear}
use kalshi.Books.Polymarket.{PmClient, publish, invalidate, disconnected, Event, run}
use kalshi.Books.Changes.{run-kept}

module _ {A : Type 0} ⦃fl : Float A⦄ where
  abbrev pub ladder? : Option (List (Level A)) → Option (List (Level A))
  ladder? none = none
  ladder? (some levels) = some (ladder_of levels)

  -- For each token the mirror holds the ladder of the client's book, and nothing where it has none.
  abbrev pub IsInSync : PmClient A → Type 0
  IsInSync c = (tok : String) → lookup tok c.mirror.asks ≡ ladder? (lookup tok c.asks)

  publish-IsInSync :
      (now : A) (tok : String) (levels : List (Level A)) (c : PmClient A)
      → IsInSync c
      → IsInSync (publish now tok levels c)
  unfolding set_asks
  publish-IsInSync now tok levels c h k = ground (
    arith,
    lookup-insert tok k levels c.asks,
    lookup-insert tok k (ladder_of levels) c.mirror.asks,
    h k,
  )

  invalidate-IsInSync : (tok : String) (c : PmClient A) → IsInSync c → IsInSync (invalidate tok c)
  unfolding drop
  invalidate-IsInSync tok c h k =
      ground (arith, lookup-remove tok k c.asks, lookup-remove tok k c.mirror.asks, h k)

  disconnected-IsInSync : (c : PmClient A) → IsInSync c → IsInSync (disconnected c)
  unfolding disconnected clear lookup
  disconnected-IsInSync c h k = refl

  -- If for each token the mirror holds the ladder of the client's book, and nothing for a token of
  -- which the client has none, then it does so after any messages that the client hears and any
  -- losses of its connection.
  pub run-IsInSync : (es : List (Event A)) (c : PmClient A) → IsInSync c → IsInSync (run es c)
  run-IsInSync = run-kept IsInSync publish-IsInSync invalidate-IsInSync disconnected-IsInSync
