-- ===== src/Paper/Walk.antt =====
-- The book walk of agent/backtest/paper_broker.py, `_walk`, and the data that its calls exchange.
use tio_indodax.Prelude.{
  ℕ, String, Bool, false, ◌&&◌, ◌||◌, Option, none, some, [], ◌∷◌, if◌then◌else◌, pos, ltb_ℤ, leb_ℤ,
  suc, zero,
}
use Prim.Native.String.{[] as nil, ◌∷◌ as cons}
use tio_indodax.Decimal.{Decimal, ◌⊕◌, ◌⊖◌, ◌⊗◌, min}
use tio_indodax.Exchange.Models.{Levels, Side, is_buy, is_sell, PairInfo, OrderBook}
use tio_indodax.Storage.{OrderId}

-- The part of agent/data/market_data.py's `PairMarket` that the broker reads.
pub record PairMarket : Type 0 where
  pub pair : String
  pub info : PairInfo
  pub orderbook : OrderBook

pub record FillEvent : Type 0 where
  pub ts : ℕ
  pub pair : String
  pub side : Side
  pub qty : Decimal
  pub price : Decimal
  pub fee_idr : Decimal
  pub realized_pnl : Decimal
  pub reason : String
  pub is_stop_loss : Bool
  pub client_order_id : OrderId

-- The level is beyond the limit.
abbrev pub beyond : Side → Decimal → Option Decimal → Bool
beyond side price none = false
beyond side price (some limit) =
    (is_buy side && ltb_ℤ limit price) || (is_sell side && ltb_ℤ price limit)

-- The loop of `_walk`, from what is filled and paid so far.
unfoldable pub walk_from :
    Levels → Decimal → Option Decimal → Side → Decimal → Decimal → Decimal × Decimal
walk_from [] qty limit side done notional = (done, notional)
walk_from ((price, avail) ∷ levels) qty limit side done notional =
    let take = min avail (qty ⊖ done) in
    let rest = walk_from levels qty limit side (done ⊕ take) (notional ⊕ take ⊗ price) in
    if beyond side price limit
    then (done, notional)
    else if leb_ℤ qty (done ⊕ take)
    then (done ⊕ take, notional ⊕ take ⊗ price)
    else rest

unfoldable pub walk : Levels → Decimal → Option Decimal → Side → Decimal × Decimal
unfolding walk_from
walk levels qty limit side = walk_from levels qty limit side (pos 0) (pos 0)

-- s[:n]
unfoldable pub prefix : ℕ → String → String
prefix zero s = ""
prefix (suc n) nil = ""
prefix (suc n) (cons c s) = cons c (prefix n s)

-- p.setup or p.reason[:60]
abbrev pub setup_or_reason : String → String → String
setup_or_reason nil reason = prefix 60 reason
setup_or_reason (cons c s) reason = cons c s
