-- ===== src/Risk/Types.antt =====
-- The data of agent/risk/risk_manager.py and `TradeProposal` of agent/strategy/strategy.py. Times
-- are in microseconds. The free text of a reason is one constructor for each message, and the
-- `metrics` that are only stored with a decision are left out.
use tio_indodax.Prelude.{ℕ, String, Bool, true, false, Option, none, some, List, if◌then◌else◌, pos}
use tio_indodax.Decimal.{Decimal}
use tio_indodax.Dict.{Dict}
use tio_indodax.Settings.{RiskLimits, MarketSettings}
use tio_indodax.Costs.{FeeSettings}
use tio_indodax.Exchange.Models.{Side, Violation, PairInfo, Ticker, OrderBook}

pub data OrderType : Type 0 where
  limit market unknown : OrderType

pub data Intent : Type 0 where
  entry exit : Intent

pub record TradeProposal : Type 0 where
  pub pair : String
  pub side : Side
  pub order_type : OrderType
  pub price : Decimal
  pub qty : Decimal
  pub intent : Intent
  pub stop_loss : Option Decimal
  pub take_profit : Option Decimal
  pub target : Option Decimal
  pub is_emergency_exit : Bool
  pub setup : String
  pub reason : String

pub data Verdict : Type 0 where
  approve resize veto : Verdict

pub data AgentStatus : Type 0 where
  running paused halted : AgentStatus

pub record RiskContext : Type 0 where
  pub now : ℕ
  pub status : AgentStatus
  pub reconciliation_ok : Bool
  pub equity_idr : Decimal
  pub peak_equity_idr : Decimal
  pub day_start_equity_idr : Decimal
  pub cash_idr : Decimal
  pub position_qty : Dict Decimal
  pub position_value_idr : Dict Decimal
  pub pending_buy_idr : Dict Decimal
  pub orders_last_hour : ℕ
  pub orders_today : ℕ
  pub last_stoploss_at : Dict ℕ
  pub exchange_free_idr : Option Decimal

pub record MarketView : Type 0 where
  pub info : PairInfo
  pub ticker : Ticker
  pub orderbook : OrderBook

-- The caps on a buy, in the order of the dict `caps`.
pub data Cap : Type 0 where
  max_position max_asset_exposure agent_capital agent_cash exchange_free_idr : Cap

pub data Reason : Type 0 where
  not_whitelisted wrong_market malformed suspended not_reconciled no_position : Reason
  bad_emergency_flag market_not_allowed no_bids emergency_slippage bad_order_type : Reason
  agent_halted agent_paused hourly_limit daily_limit kill_switch daily_loss : Reason
  sell_too_low stop_missing stop_above_entry no_target cooling_down max_positions : Reason
  book_empty bid_too_high wide_spread low_volume thin_book exit_slippage poor_edge : Reason
  too_small_to_exit emergency_exit exit_approved qty_capped all_passed analyst_veto : Reason
  below_minimum : Violation → Reason
  no_room size_zero resized_by : Cap → Reason

pub record RiskDecision : Type 0 where
  pub verdict : Verdict
  pub proposal : TradeProposal
  pub qty : Decimal
  pub price : Decimal
  pub reasons : List Reason
  pub trigger_halt : Bool
  pub trigger_daily_stop : Bool

unfoldable pub approved : RiskDecision → Bool
approved d = elim d.verdict [ veto ↦ false | _ ↦ true ]

-- `RiskManager.__init__`
pub record RiskManager : Type 0 where
  pub limits : RiskLimits
  pub market : MarketSettings
  pub fees : FeeSettings
  pub whitelist : List String

-- The rest of a method, a veto returned early, or an exception (a division by 0, or a pair name
-- that `base_asset` does not know).
pub data Step (A : Type 0) : Type 0 where
  next : A → Step A
  stop : RiskDecision → Step A
  raised : Step A

infixl 5 ◌>>=◌ ◌>>◌
abbrev pub ◌>>=◌ : {A B : Type 0} → Step A → (A → Step B) → Step B
next a >>= f = f a
stop d >>= f = stop d
raised >>= f = raised

abbrev pub ◌>>◌ : {B : Type 0} → Step (Unit {0}) → Step B → Step B
m >> k = m >>= λ _. k

-- if test: return decision
abbrev pub return_if : Bool → RiskDecision → Step (Unit {0})
return_if test d = if test then stop d else next tt

abbrev pub or_raise : {A : Type 0} → Option A → Step A
or_raise none = raised
or_raise (some a) = next a

-- The local `veto` of the three methods.
abbrev pub vetoed : TradeProposal → Bool → Bool → List Reason → RiskDecision
vetoed p halt daily why = record {
  verdict = veto;
  proposal = p;
  qty = pos 0;
  price = p.price;
  reasons = why;
  trigger_halt = halt;
  trigger_daily_stop = daily;
}
