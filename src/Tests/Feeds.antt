-- ===== src/Tests/Feeds.antt =====
-- Concrete runs of the order books' feeds.
use kalshi.Common.{◌≡◌, ◌⊎◌, refl, true, none, some, List, [], ◌∷◌, lookup, contains, if◌then◌else◌}
use kalshi.Common.Int.{ℤ}
use kalshi.Float.Fixed.{fixed}
use kalshi.Books.{Level, empty_mirror, ladder_of, get_asks, set_asks, drop, clear}
use kalshi.Books.Polymarket.{
  Field, number, unreadable, missing, sell, Event, heard, book, price_change, PmClient, run,
}
use kalshi.Books.Kalshi.{orderbook_snapshot, orderbook_delta, yes_side}
use kalshi.Books.Feed.{
  Feed, FeedEvent, from_polymarket, from_kalshi, new_feed, dirty_pairs, feed_run,
}
use kalshi.Books.InSync.{IsInSync, run-IsInSync}
use kalshi.Books.Dirty.{feed_marks_dirty}
use kalshi.Books.Ladders.{get_asks-set_asks}
use kalshi.Tests.Data.{whole, cents}

abbrev levels : List (Level ℤ)
levels = (cents 55, whole 10) ∷ (cents 50, whole 4) ∷ (cents 52, whole 0) ∷ []

abbrev snapshot : Event ℤ
snapshot =
    heard (whole 100)
      (book "71" ((number (cents 55), number (whole 10)) ∷ (number (cents 50), missing) ∷ []))

abbrev change : Field ℤ → Event ℤ
change price = heard (whole 101) (
    price_change
      (record { asset_id = "71"; side = sell; price = price; size = number (whole 3) } ∷ []))

abbrev idle : PmClient ℤ
idle = record { asks = []; mirror = empty_mirror }

run-IsInSync_example :
    IsInSync (run (snapshot ∷ change (number (cents 51)) ∷ change unreadable ∷ snapshot ∷ []) idle)
unfolding lookup
run-IsInSync_example =
    run-IsInSync (snapshot ∷ change (number (cents 51)) ∷ change unreadable ∷ snapshot ∷ []) idle
      (λ tok. refl)

abbrev feed : Feed ℤ
unfolding new_feed
feed = new_feed (record { ktk = "KXINX"; tokens = "71" ∷ "us:slug" ∷ [] } ∷ [])

abbrev events : List (FeedEvent ℤ)
events =
    from_polymarket snapshot
    ∷ from_kalshi (whole 102)
        (orderbook_snapshot "KXINX" ((some (whole 40), some (whole 5)) ∷ []) [])
    ∷ from_kalshi (whole 103)
        (orderbook_delta "KXINX" (some yes_side) (number (whole 40)) unreadable)
    ∷ []

feed_marks_dirty_example :
    let m = (feed_run (λ x. x) events (dirty_pairs feed).1).mirror in
    (lookup "71" m.asks ≡ lookup "71" feed.mirror.asks)
    ⊎ ((lookup "71" m.asks ≡ none) ⊎ (contains "71" m.dirty ≡ true))
feed_marks_dirty_example = feed_marks_dirty (λ x. x) events feed "71"

get_asks-set_asks_example :
    let m = set_asks (whole 100) "71" levels empty_mirror in
    (get_asks (whole 120) "71" (whole 30) m ≡ (
      if fixed.lt (whole 30) (fixed.sub (whole 120) (whole 100))
      then none
      else some (ladder_of levels)))
    × (get_asks (whole 120) "72" (whole 30) m ≡ get_asks (whole 120) "72" (whole 30) empty_mirror)
    × (get_asks (whole 120) "71" (whole 30) (drop "71" empty_mirror) ≡ none)
    × (get_asks (whole 120) "72" (whole 30) (drop "71" empty_mirror)
        ≡ get_asks (whole 120) "72" (whole 30) empty_mirror)
    × (get_asks (whole 120) "71" (whole 30) (clear empty_mirror) ≡ none)
get_asks-set_asks_example =
    get_asks-set_asks (whole 100) (whole 120) (whole 30) "71" "72" levels empty_mirror refl
