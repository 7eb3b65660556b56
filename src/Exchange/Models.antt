-- ===== src/Exchange/Models.antt =====
-- agent/exchange/models.py: pair rules, tickers, order books and the walk through a book.
use tio_indodax.Prelude.{
  String, Bool, true, false, not, ◌||◌, Option, none, some, List, [], ◌∷◌, if◌then◌else◌, pos,
  ltb_ℤ, leb_ℤ, eqb_ℤ,
}
use tio_indodax.Decimal.{Decimal, ◌⊕◌, ◌⊖◌, ◌⊗◌, ◌⊘◌, divide, whole, floor, ceiling, min}

-- The code compares a side with "buy" and "sell"; `other` is any other text.
pub data Side : Type 0 where
  buy sell other : Side

abbrev pub is_buy : Side → Bool
is_buy buy = true
is_buy _ = false

abbrev pub is_sell : Side → Bool
is_sell sell = true
is_sell _ = false

unfoldable pub floor_to_step : Decimal → Decimal → Decimal
floor_to_step value step = floor (value ⊘ step) ⊗ step

unfoldable pub ceil_to_step : Decimal → Decimal → Decimal
ceil_to_step value step = ceiling (value ⊘ step) ⊗ step

pub record PairInfo : Type 0 where
  pub ticker_id : String
  pub pair_id : String
  pub symbol : String
  pub base : String
  pub quote : String
  pub price_tick : Option Decimal
  pub qty_step : Option Decimal
  pub min_quote : Option Decimal
  pub min_base : Option Decimal
  pub maker_fee_pct : Option Decimal
  pub taker_fee_pct : Option Decimal
  pub is_maintenance : Bool
  pub is_suspended : Bool

unfoldable pub tradable : PairInfo → Bool
tradable info = not (info.is_maintenance || info.is_suspended)

-- The truth value of an optional number: neither `None` nor 0.
abbrev pub truthy : Option Decimal → Option Decimal
truthy none = none
truthy (some d) = if eqb_ℤ d (pos 0) then none else some d

unfoldable pub round_price : PairInfo → Decimal → Side → Decimal
unfolding floor_to_step ceil_to_step
round_price info price side = elim (truthy info.price_tick) [
  | none ↦ price
  | some tick ↦ if is_buy side then floor_to_step price tick else ceil_to_step price tick
]

unfoldable pub round_qty : PairInfo → Decimal → Decimal
unfolding floor_to_step
round_qty info qty = elim (truthy info.qty_step) [ none ↦ qty | some step ↦ floor_to_step qty step ]

-- The reason strings of `min_order_violation`.
pub data Violation : Type 0 where
  not_positive below_min_base below_min_quote : Violation

abbrev below : Option Decimal → Decimal → Bool
below none x = false
below (some m) x = ltb_ℤ x m

unfoldable pub min_order_violation : PairInfo → Decimal → Decimal → Option Violation
min_order_violation info price qty =
    if leb_ℤ qty (pos 0) || leb_ℤ price (pos 0)
    then some not_positive
    else if below info.min_base qty
    then some below_min_base
    else if below info.min_quote (price ⊗ qty)
    then some below_min_quote
    else none

pub record Ticker : Type 0 where
  pub pair : String
  pub last : Decimal
  pub bid : Decimal
  pub ask : Decimal
  pub high : Decimal
  pub low : Decimal
  pub vol_base : Option Decimal
  pub vol_quote : Option Decimal

-- A level is a price and a quantity; the best level comes first.
abbrev pub Levels : Type 0
Levels = List (Decimal × Decimal)

pub record OrderBook : Type 0 where
  pub pair : String
  pub bids : Levels
  pub asks : Levels

abbrev pub best : Levels → Option Decimal
best [] = none
best ((price, _) ∷ _) = some price

abbrev pub best_bid : OrderBook → Option Decimal
best_bid book = best book.bids

abbrev pub best_ask : OrderBook → Option Decimal
best_ask book = best book.asks

abbrev mid_of : Option Decimal → Option Decimal → Option Decimal
mid_of (some b) (some a) = some ((b ⊕ a) ⊘ whole 2)
mid_of _ _ = none

unfoldable pub mid : OrderBook → Option Decimal
mid book = mid_of (best_bid book) (best_ask book)

abbrev spread_of : Option Decimal → Option Decimal → Option Decimal → Option Decimal
spread_of (some m) (some b) (some a) = some ((a ⊖ b) ⊘ m ⊗ whole 100)
spread_of _ _ _ = none

unfoldable pub spread_pct : OrderBook → Option Decimal
unfolding mid
spread_pct book = spread_of (truthy (mid book)) (best_bid book) (best_ask book)

pub record FillEstimate : Type 0 where
  pub filled_quote : Decimal
  pub filled_base : Decimal
  pub vwap : Option Decimal
  pub slippage_pct : Option Decimal
  pub fully_filled : Bool

infixl 5 ◌>>=◌
abbrev pub ◌>>=◌ {ℓ κ} : {A : Type ℓ} {B : Type κ} → Option A → (A → Option B) → Option B
none >>= f = none
some a >>= f = f a

-- The `for` loop: what remains to fill and the base amount so far. `none`: a level of price 0.
unfoldable pub consume : Levels → Decimal → Decimal → Option (Decimal × Decimal)
consume [] remaining base = some (remaining, base)
consume ((price, qty) ∷ levels) remaining base =
    let take = min (price ⊗ qty) remaining in
    let rest = consume levels (remaining ⊖ take) in
    do
      part ← divide take price
      (if leb_ℤ (remaining ⊖ take) (pos 0)
          then some (remaining ⊖ take, base ⊕ part)
          else rest (base ⊕ part))

abbrev slippage : Side → Decimal → Decimal → Option Decimal
slippage side vwap top = if is_buy side then divide (vwap ⊖ top) top else divide (top ⊖ vwap) top

abbrev pub no_fill : FillEstimate
no_fill = record {
  filled_quote = pos 0;
  filled_base = pos 0;
  vwap = none;
  slippage_pct = none;
  fully_filled = false;
}

abbrev estimate : Side → Decimal → Decimal → Decimal × Decimal → Option FillEstimate
estimate side top quote_amount (remaining, base) =
    let filled = quote_amount ⊖ remaining in
    if ltb_ℤ (pos 0) base
    then (do
      slip ← slippage side (filled ⊘ base) top
      some (record {
        filled_quote = filled;
        filled_base = base;
        vwap = some (filled ⊘ base);
        slippage_pct = some (slip ⊗ whole 100);
        fully_filled = leb_ℤ remaining (pos 0);
      }))
    else some (record {
      filled_quote = filled;
      filled_base = base;
      vwap = none;
      slippage_pct = none;
      fully_filled = leb_ℤ remaining (pos 0);
    })

abbrev estimate_levels : Side → Decimal → Levels → Option FillEstimate
estimate_levels side quote_amount [] = some no_fill
estimate_levels side quote_amount ((top, qty) ∷ levels) =
    if leb_ℤ quote_amount (pos 0) then some no_fill else (do
      walked ← consume ((top, qty) ∷ levels) quote_amount (pos 0)
      estimate side top quote_amount walked)

unfoldable pub estimate_fill : OrderBook → Side → Decimal → Option FillEstimate
unfolding consume
estimate_fill book side quote_amount =
    estimate_levels side quote_amount (if is_buy side then book.asks else book.bids)
