-- ===== src/Books/Feed.antt =====
-- kalshi_arbitrage/ws_books.py: the WsBookFeed, both clients on one mirror, and the pairs whose
-- books changed. The two connection loops interleave; a history is any sequence of their events.
use Prim.Native.String.{slice, len}
use text.Mathlib.Text.{starts_with}
use kalshi.Common.{
  Bool, ◌&&◌, not, Option, none, some, List, [], ◌∷◌, ◌++◌, String, Dict, lookup, insert, include,
  is_truthy, if◌then◌else◌,
}
use kalshi.Float.{Float}
use kalshi.Books.{Level, BookMirror, empty_mirror, pop_dirty}
use kalshi.Books.Polymarket.{PmClient, Event, step}
use kalshi.Books.Kalshi.{
  KalshiBook, KalshiMessage, KalshiWsClient, handle_kalshi, kalshi_disconnected,
}

pub record Pair : Type 0 where
  pub ktk : String
  pub tokens : List String

pub record Feed (A : Type 0) : Type 0 where
  pub mirror : BookMirror A
  pub token_to_pair : Dict String
  pub token_ids : List String
  pub tickers : List String
  pub pm_asks : Dict (List (Level A))
  pub kalshi_books : Dict (KalshiBook A)

-- A CLOB token: not a synthetic "us:" id.
abbrev pub is_clob : String → Bool
is_clob tid = is_truthy (some tid) && not (starts_with tid "us:")

abbrev pub add_tokens : String → List String → Dict String → Dict String
add_tokens ktk [] m = m
add_tokens ktk (tid ∷ rest) m =
    if is_clob tid then add_tokens ktk rest (insert tid ktk m) else add_tokens ktk rest m

abbrev pub token_map : List Pair → Dict String → Dict String
token_map [] m = m
token_map (p ∷ ps) m = token_map ps (add_tokens p.ktk p.tokens m)

abbrev pub clob_tokens : List String → List String
clob_tokens [] = []
clob_tokens (tid ∷ rest) = let kept = clob_tokens rest in if is_clob tid then tid ∷ kept else kept

abbrev pub all_tokens : List Pair → List String
all_tokens [] = []
all_tokens (p ∷ ps) = clob_tokens p.tokens ++ all_tokens ps

abbrev pub all_tickers : List Pair → List String
all_tickers [] = []
all_tickers (p ∷ ps) =
    let rest = all_tickers ps in if is_truthy (some p.ktk) then p.ktk ∷ rest else rest

-- The pair of a changed instrument: of a token, or of a ladder "kyes:<ticker>" or "kno:<ticker>".
unfoldable pub pair_of : Dict String → String → Option String
pair_of pairs k = elim (lookup k pairs) [
  | some pair ↦ some pair
  | none ↦
      if starts_with k "kyes:"
      then some (slice k 5 (len k))
      else if starts_with k "kno:"
      then some (slice k 4 (len k))
      else none
]

abbrev pub include_pair : Option String → List String → List String
include_pair none keys = keys
include_pair (some pair) keys = include pair keys

abbrev pub pairs_of : Dict String → List String → List String
pairs_of pairs [] = []
pairs_of pairs (k ∷ ks) = include_pair (pair_of pairs k) (pairs_of pairs ks)

pub data FeedEvent (A : Type 0) : Type 0 where
  from_polymarket : Event A → FeedEvent A
  from_kalshi : A → KalshiMessage A → FeedEvent A
  kalshi_lost : FeedEvent A

module _ {A : Type 0} where
  unfoldable pub new_feed : List Pair → Feed A
  new_feed pairs = record {
    mirror = empty_mirror;
    token_to_pair = token_map pairs [];
    token_ids = all_tokens pairs;
    tickers = all_tickers pairs;
    pm_asks = [];
    kalshi_books = [];
  }

  unfoldable pub dirty_pairs : Feed A → List String × Feed A
  unfolding pop_dirty
  dirty_pairs f =
      let (dirty, m) = pop_dirty f.mirror in
      (pairs_of f.token_to_pair dirty, record f { mirror = m })

  abbrev pub pm_of : Feed A → PmClient A
  pm_of f = record { asks = f.pm_asks; mirror = f.mirror }

  abbrev pub kalshi_of : Feed A → KalshiWsClient A
  kalshi_of f = record { books = f.kalshi_books; mirror = f.mirror }

  abbrev pub with_pm : Feed A → PmClient A → Feed A
  with_pm f c = record f { pm_asks = c.asks; mirror = c.mirror }

  abbrev pub with_kalshi : Feed A → KalshiWsClient A → Feed A
  with_kalshi f c = record f { kalshi_books = c.books; mirror = c.mirror }

module _ {A : Type 0} ⦃fl : Float A⦄ (round6 : A → A) where
  unfoldable pub feed_step : FeedEvent A → Feed A → Feed A
  unfolding step
  feed_step (from_polymarket e) f = with_pm f (step e (pm_of f))
  feed_step (from_kalshi now msg) f = elim (handle_kalshi round6 now msg (kalshi_of f)) [
    | none ↦ with_kalshi f (kalshi_disconnected f.tickers (kalshi_of f))
    | some c ↦ with_kalshi f c
  ]
  feed_step kalshi_lost f = with_kalshi f (kalshi_disconnected f.tickers (kalshi_of f))

  unfoldable pub feed_run : List (FeedEvent A) → Feed A → Feed A
  unfolding feed_step
  feed_run [] f = f
  feed_run (e ∷ es) f = feed_run es (feed_step e f)
