-- ===== src/Books/Kalshi.antt =====
-- kalshi_arbitrage/ws_books.py: the class KalshiWsClient. `round6` is Python's `round(x, 6)`; `none`
-- is an exception, which ends the connection.
use Prim.Native.String.{◌++◌ as str_append}
use kalshi.Common.{
  Option, none, some, List, [], ◌∷◌, String, Dict, lookup, insert, is_truthy, if◌then◌else◌,
}
use kalshi.Float.{Float}
use kalshi.Books.{Level, BookMirror, positive, set_asks, drop}
use kalshi.Books.Polymarket.{Field, or_zero, put_level, pop_level, same_price}

-- Bid levels by price in dollars.
pub record KalshiBook (A : Type 0) : Type 0 where
  pub yes : List (Level A)
  pub no : List (Level A)

-- The side of a delta; any other is `none`.
pub data BookSide : Type 0 where
  yes_side no_side : BookSide

pub data KalshiMessage (A : Type 0) : Type 0 where
  orderbook_snapshot :
      String → List (Option A × Option A) → List (Option A × Option A) → KalshiMessage A
  orderbook_delta : String → Option BookSide → Field A → Field A → KalshiMessage A
  other_type : KalshiMessage A

pub record KalshiWsClient (A : Type 0) : Type 0 where
  pub books : Dict (KalshiBook A)
  pub mirror : BookMirror A

abbrev pub yes_key : String → String
yes_key ticker = str_append "kyes:" ticker

abbrev pub no_key : String → String
no_key ticker = str_append "kno:" ticker

module _ {A : Type 0} ⦃fl : Float A⦄ (round6 : A → A) where
  open fl use {add, sub, div, le, of_nat, decimal}

  -- Asks from the opposite side's bids.
  abbrev pub complement : List (Level A) → List (Level A)
  complement [] = []
  complement ((p, s) ∷ ls) = (round6 (sub (decimal 10 1) p), s) ∷ complement ls

  abbrev pub publish_sides : A → String → KalshiBook A → BookMirror A → BookMirror A
  publish_sides now ticker b m =
      set_asks now (no_key ticker) (complement (positive b.yes))
        (set_asks now (yes_key ticker) (complement (positive b.no)) m)

  abbrev pub store : A → String → KalshiBook A → KalshiWsClient A → KalshiWsClient A
  store now ticker b c = record {
    books = insert ticker b c.books;
    mirror = publish_sides now ticker b c.mirror;
  }

  abbrev pub read_side : List (Level A) → List (Option A × Option A) → Option (List (Level A))
  read_side levels [] = some levels
  read_side levels ((p, s) ∷ rest) = elim p [
    | none ↦ none
    | some cents ↦ elim s [
      | none ↦ none
      | some size ↦ read_side (put_level (div cents (decimal 1000 1)) size levels) rest
    ]
  ]

  -- `book[side].get(price, 0.0)`
  abbrev pub size_at : A → List (Level A) → A
  size_at p [] = decimal 0 1
  size_at p ((q, s) ∷ ls) = let rest = size_at p ls in if same_price q p then s else rest

  abbrev pub moved : A → A → List (Level A) → List (Level A)
  moved price delta levels =
      let lvl = add (size_at price levels) delta in
      let without = pop_level price levels in
      let updated = put_level price lvl levels in if le lvl (decimal 0 1) then without else updated

  abbrev pub moved_book : BookSide → A → A → KalshiBook A → KalshiBook A
  moved_book yes_side price delta b = record b { yes = moved price delta b.yes }
  moved_book no_side price delta b = record b { no = moved price delta b.no }

  abbrev pub or_new : Option (KalshiBook A) → KalshiBook A
  or_new none = record { yes = []; no = [] }
  or_new (some b) = b

  abbrev pub handle_delta :
      A
      → String
      → Option BookSide
      → Field A
      → Field A
      → KalshiWsClient A
      → Option (KalshiWsClient A)
  handle_delta now ticker none price delta c =
      some (record c { books = insert ticker (or_new (lookup ticker c.books)) c.books })
  handle_delta now ticker (some side) price delta c = elim (or_zero price) [
    | none ↦ none
    | some cents ↦ elim (or_zero delta) [
      | none ↦ none
      | some d ↦ some (
          store now ticker
            (moved_book side (div cents (decimal 1000 1)) d (or_new (lookup ticker c.books))) c)
    ]
  ]

  unfoldable pub handle_kalshi : A → KalshiMessage A → KalshiWsClient A → Option (KalshiWsClient A)
  handle_kalshi now (orderbook_snapshot ticker yeses noes) c =
      if is_truthy (some ticker)
      then elim (read_side [] yeses) [
        | none ↦ none
        | some y ↦ elim (read_side [] noes) [
          | none ↦ none
          | some n ↦ some (store now ticker (record { yes = y; no = n }) c)
        ]
      ]
      else some c
  handle_kalshi now (orderbook_delta ticker side price delta) c =
      if is_truthy (some ticker) then handle_delta now ticker side price delta c else some c
  handle_kalshi now other_type c = some c

module _ {A : Type 0} where
  abbrev pub drop_all : List String → BookMirror A → BookMirror A
  drop_all [] m = m
  drop_all (ticker ∷ rest) m = drop_all rest (drop (no_key ticker) (drop (yes_key ticker) m))

  -- Behind a lost connection.
  unfoldable pub kalshi_disconnected : List String → KalshiWsClient A → KalshiWsClient A
  kalshi_disconnected tickers c = record { books = []; mirror = drop_all tickers c.mirror }
