-- ===== src/Books/Polymarket.antt =====
-- kalshi_arbitrage/ws_books.py: the class PMWsClient, its message handling and what a lost
-- connection resets. A message that raises ends the connection, so `none` is an exception. The
-- clock of a message is `now` for each publication.
use kalshi.Common.{
  Bool, true, false, ◌&&◌, ◌||◌, not, Option, none, some, List, [], ◌∷◌, String, Dict, lookup,
  insert, remove, is_truthy, if◌then◌else◌,
}
use kalshi.Float.{Float}
use kalshi.Books.{Level, BookMirror, set_asks, drop, clear}

-- A field of a message that the code passes to `float`: absent, readable, or one it raises on.
pub data Field (A : Type 0) : Type 0 where
  missing : Field A
  number : A → Field A
  unreadable : Field A

-- `float(d.get(key, 0))`
abbrev pub or_zero : {A : Type 0} → ⦃fl : Float A⦄ → Field A → Option A
or_zero ⦃fl⦄ missing = some (fl.decimal 0 1)
or_zero (number x) = some x
or_zero unreadable = none

-- `float(d.get(key))`
abbrev pub required : {A : Type 0} → Field A → Option A
required (number x) = some x
required _ = none

-- The side, its case folded.
pub data Side : Type 0 where
  sell ask other_side : Side

abbrev pub is_ask : Side → Bool
is_ask sell = true
is_ask ask = true
is_ask other_side = false

pub record Change (A : Type 0) : Type 0 where
  pub asset_id : String
  pub side : Side
  pub price : Field A
  pub size : Field A

-- A message by its `event_type`; the changes of a price change are its `changes`, its
-- `price_changes` or the message itself.
pub data Message (A : Type 0) : Type 0 where
  book : String → List (Field A × Field A) → Message A
  price_change : List (Change A) → Message A
  other_event : Message A

-- The client's books, each a dict from prices to sizes, and the mirror.
pub record PmClient (A : Type 0) : Type 0 where
  pub asks : Dict (List (Level A))
  pub mirror : BookMirror A

module _ {A : Type 0} ⦃fl : Float A⦄ where
  open fl use {le, decimal}

  abbrev pub same_price : A → A → Bool
  same_price p q = le p q && le q p

  -- `book[price] = size`
  abbrev pub put_level : A → A → List (Level A) → List (Level A)
  put_level p s [] = (p, s) ∷ []
  put_level p s ((q, t) ∷ ls) =
      let rest = put_level p s ls in if same_price q p then (q, s) ∷ ls else (q, t) ∷ rest

  -- `book.pop(price, None)`
  abbrev pub pop_level : A → List (Level A) → List (Level A)
  pop_level p [] = []
  pop_level p ((q, t) ∷ ls) =
      let rest = pop_level p ls in if same_price q p then ls else (q, t) ∷ rest

  abbrev pub read_levels : List (Level A) → List (Field A × Field A) → Option (List (Level A))
  read_levels levels [] = some levels
  read_levels levels ((p, s) ∷ rest) = elim (or_zero p) [
    | none ↦ none
    | some price ↦ elim (or_zero s) [
      | none ↦ none
      | some size ↦ read_levels (put_level price size levels) rest
    ]
  ]

  -- The book of a token, stored and published.
  abbrev pub publish : A → String → List (Level A) → PmClient A → PmClient A
  publish now tok levels c = record {
    asks = insert tok levels c.asks;
    mirror = set_asks now tok levels c.mirror;
  }

  abbrev pub invalidate : String → PmClient A → PmClient A
  invalidate tok c = record { asks = remove tok c.asks; mirror = drop tok c.mirror }

  unfoldable pub apply_change : A → Change A → PmClient A → PmClient A
  apply_change now ch c = elim (lookup ch.asset_id c.asks) [
    | none ↦ c
    | some levels ↦
        if not (is_truthy (some ch.asset_id)) || not (is_ask ch.side)
        then c
        else elim (required ch.price) [
          | none ↦ invalidate ch.asset_id c
          | some price ↦ elim (or_zero ch.size) [
            | none ↦ invalidate ch.asset_id c
            | some size ↦
                let without = pop_level price levels in
                let updated = put_level price size levels in
                publish now ch.asset_id (if le size (decimal 0 1) then without else updated) c
          ]
        ]
  ]

  unfoldable pub apply_changes : A → List (Change A) → PmClient A → PmClient A
  unfolding apply_change
  apply_changes now [] c = c
  apply_changes now (ch ∷ rest) c = apply_changes now rest (apply_change now ch c)

  unfoldable pub handle_message : A → Message A → PmClient A → Option (PmClient A)
  unfolding apply_changes
  handle_message now (book tok levels) c =
      if is_truthy (some tok)
      then elim (read_levels [] levels) [
        | none ↦ none
        | some ladder ↦ some (publish now tok ladder c)
      ]
      else some c
  handle_message now (price_change changes) c = some (apply_changes now changes c)
  handle_message now other_event c = some c

  -- Behind a lost connection.
  unfoldable pub disconnected : PmClient A → PmClient A
  disconnected c = record { asks = []; mirror = clear c.mirror }

-- What the connection loop sees: a message at a reading of the clock, or the end of a connection.
pub data Event (A : Type 0) : Type 0 where
  heard : A → Message A → Event A
  lost : Event A

module _ {A : Type 0} ⦃fl : Float A⦄ where
  unfoldable pub step : Event A → PmClient A → PmClient A
  unfolding handle_message disconnected
  step (heard now msg) c = elim (handle_message now msg c) [ none ↦ disconnected c | some c' ↦ c' ]
  step lost c = disconnected c

  unfoldable pub run : List (Event A) → PmClient A → PmClient A
  unfolding step
  run [] c = c
  run (e ∷ es) c = run es (step e c)
