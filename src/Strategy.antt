-- ===== src/Strategy.antt =====
-- agent/strategy/strategy.py: the rules of entry and exit over computed features. A finite float
-- stands as the Decimal that `Decimal(repr(x))` makes of it, which keeps the order; `none` is a float
-- that is not finite. The wording of a reason is left out, and so is the confidence, which is always
-- 0.6 for an entry.
pub mod Rules
pub mod Tests
use tio_indodax.Prelude.{
  ℕ, String, Bool, true, false, not, ◌&&◌, ◌||◌, Option, none, some, leb, if◌then◌else◌, pos, ltb_ℤ,
  leb_ℤ, zero, suc,
}
use Prim.Native.Nat.{◌+◌, ◌*◌}
use tio_indodax.Decimal.{Decimal, ◌⊕◌, ◌⊖◌, ◌⊗◌, ◌⊘◌, whole, fraction}
use tio_indodax.Dict.{Dict, lookup}
use tio_indodax.Settings.{StrategySettings, Style, trend_follow, st_breakout, st_pullback}
use tio_indodax.Exchange.Models.{
  buy, sell, PairInfo, OrderBook, best_bid, best_ask, round_price, round_qty, truthy,
}
use tio_indodax.Portfolio.{Position}
use tio_indodax.Risk.Types.{TradeProposal, OrderType, Intent}

-- The features that the rules read.
pub record TimeframeFeatures : Type 0 where
  pub close : Option Decimal
  pub rsi : Option Decimal
  pub atr : Option Decimal
  pub donchian_high : Option Decimal
  pub ema_trend : Option Decimal
  pub chandelier_stop : Option Decimal

-- Those of an entry, once they are finite.
pub record Ready : Type 0 where
  pub close : Decimal
  pub donchian_high : Decimal
  pub ema_trend : Decimal
  pub atr : Decimal
  pub chandelier_stop : Decimal

-- Why nothing is proposed.
pub data EntryNote : Type 0 where
  missing_timeframe empty_orderbook not_ready below_trend no_breakout no_pullback : EntryNote
  invalid_stop low_confidence no_size : EntryNote

pub data Entry : Type 0 where
  proposed : TradeProposal → Entry
  declined : EntryNote → Entry

-- `Strategy.__init__`
pub record Strategy : Type 0 where
  pub p : StrategySettings
  pub capital_idr : Decimal

-- An early return.
unfoldable pub decline_if : Bool → EntryNote → Entry → Entry
decline_if test note rest = if test then declined note else rest

abbrev finite :
    Option Decimal
    → Option Decimal
    → Option Decimal
    → Option Decimal
    → Option Decimal
    → Option Ready
finite (some close) (some high) (some ema) (some atr) (some stop) = some (record {
  close = close;
  donchian_high = high;
  ema_trend = ema;
  atr = atr;
  chandelier_stop = stop;
})
finite _ _ _ _ _ = none

abbrev positive_atr : Option Ready → Option Ready
positive_atr none = none
positive_atr (some f) = if leb_ℤ f.atr (pos 0) then none else some f

-- The guard that the indicators are ready.
unfoldable pub ready : TimeframeFeatures → Option Ready
ready f = positive_atr (finite f.close f.donchian_high f.ema_trend f.atr f.chandelier_stop)

-- The quantity that loses the risk of one trade at the stop.
unfoldable pub risk_qty : Strategy → PairInfo → Decimal → Decimal → Decimal
risk_qty s info entry sl =
    round_qty info (s.capital_idr ⊗ s.p.risk_per_trade_pct ⊘ whole 100 ⊘ (entry ⊖ sl))

abbrev pub invalid : Decimal → Decimal → Bool
invalid sl entry = leb_ℤ sl (pos 0) || leb_ℤ entry sl

abbrev pub entry_proposal :
    String → Decimal → Decimal → Decimal → Option Decimal → Decimal → String → TradeProposal
entry_proposal pair entry qty sl tp target setup = record {
  pair = pair;
  side = buy;
  order_type = OrderType.limit;
  price = entry;
  qty = qty;
  intent = Intent.entry;
  stop_loss = some sl;
  take_profit = tp;
  target = some target;
  is_emergency_exit = false;
  setup = setup;
  reason = "";
}

-- The chandelier stop, or the one from the entry where the candle was too large.
abbrev pub trend_stop : Strategy → PairInfo → Decimal → Ready → Decimal
trend_stop s info entry f =
    let sl = round_price info f.chandelier_stop buy in
    if leb_ℤ entry sl then round_price info (entry ⊖ s.p.chandelier_atr_mult ⊗ f.atr) buy else sl

abbrev pub target_price : Strategy → PairInfo → Decimal → Ready → Decimal
target_price s info entry f = round_price info (entry ⊕ s.p.target_atr_mult ⊗ f.atr) sell

unfoldable pub trend_entry : Strategy → String → PairInfo → Decimal → Ready → Entry
trend_entry s pair info ask f =
    let entry = round_price info ask sell in
    let sl = trend_stop s info entry f in
    let qty = risk_qty s info entry sl in
    let target = target_price s info entry f in
    decline_if (leb_ℤ f.close f.donchian_high) no_breakout (
      decline_if (invalid sl entry) invalid_stop (
        decline_if (ltb_ℤ (fraction 6 10) s.p.min_confidence) low_confidence (
          decline_if (leb_ℤ qty (pos 0)) no_size
            (proposed (entry_proposal pair entry qty sl none target "trend_breakout")))))

-- The fixed take-profit, and the target that it replaces.
abbrev pub take_profit : Strategy → PairInfo → Decimal → Ready → Option Decimal
take_profit s info entry f = elim (truthy s.p.tp_atr_mult) [
  | none ↦ none
  | some k ↦ some (round_price info (entry ⊕ k ⊗ f.atr) sell)
]

abbrev pub profit_target : Option Decimal → Decimal → Decimal
profit_target tp target = elim tp [
  | none ↦ target
  | some level ↦ elim (truthy (some level)) [ none ↦ target | some t ↦ t ]
]

-- `_short_term_entry`, after its signal.
unfoldable pub sized_entry : Strategy → String → PairInfo → Decimal → Ready → String → Entry
sized_entry s pair info ask f setup =
    let entry = round_price info ask sell in
    let sl = round_price info (entry ⊖ s.p.stop_atr_mult ⊗ f.atr) buy in
    let tp = take_profit s info entry f in
    let target = profit_target tp (target_price s info entry f) in
    let qty = risk_qty s info entry sl in
    decline_if (invalid sl entry) invalid_stop (
      decline_if (leb_ℤ qty (pos 0)) no_size
        (proposed (entry_proposal pair entry qty sl tp target setup)))

abbrev pub no_dip : Option Decimal → Decimal → Bool
no_dip none most = true
no_dip (some rsi) most = leb_ℤ most rsi

unfoldable pub short_term_entry :
    Strategy → String → PairInfo → Decimal → Ready → Option Decimal → Style → Entry
unfolding sized_entry
short_term_entry s pair info ask f rsi st_breakout =
    decline_if (leb_ℤ f.close f.donchian_high) no_breakout
      (sized_entry s pair info ask f "st_breakout")
short_term_entry s pair info ask f rsi _ =
    decline_if (no_dip rsi s.p.rsi_entry) no_pullback (sized_entry s pair info ask f "st_pullback")

abbrev pub by_style :
    Strategy → String → PairInfo → Decimal → Ready → Option Decimal → Style → Entry
by_style s pair info ask f rsi trend_follow = trend_entry s pair info ask f
by_style s pair info ask f rsi style = short_term_entry s pair info ask f rsi style

abbrev pub above_trend :
    Strategy → String → PairInfo → Decimal → Option Decimal → Option Ready → Entry
above_trend s pair info ask rsi none = declined not_ready
above_trend s pair info ask rsi (some f) =
    decline_if (leb_ℤ f.close f.ema_trend) below_trend (by_style s pair info ask f rsi s.p.style)

abbrev pub quoted :
    Strategy → String → PairInfo → TimeframeFeatures → Option Decimal → Option Decimal → Entry
quoted s pair info f (some bid) (some ask) = above_trend s pair info ask f.rsi (ready f)
quoted s pair info f _ _ = declined empty_orderbook

unfoldable pub propose_entry :
    Strategy → String → PairInfo → OrderBook → Dict TimeframeFeatures → Entry
unfolding trend_entry short_term_entry ready lookup
propose_entry s pair info book features = elim (lookup s.p.timeframe features) [
  | none ↦ declined missing_timeframe
  | some f ↦ quoted s pair info f (best_bid book) (best_ask book)
]

abbrev pub higher : Decimal → Option Decimal → Option Decimal
higher new none = some new
higher new (some old) = if ltb_ℤ old new then some new else none

abbrev pub chandelier_of : Option TimeframeFeatures → Option Decimal
chandelier_of none = none
chandelier_of (some f) = f.chandelier_stop

unfoldable pub trail_stop : Strategy → Position → Dict TimeframeFeatures → PairInfo → Option Decimal
trail_stop s position features info =
    if s.p.trailing
    then (elim (chandelier_of (lookup s.p.timeframe features)) [
      | none ↦ none
      | some stop ↦ higher (round_price info stop buy) position.stop_loss
    ])
    else none

abbrev pub exit_proposal : Position → OrderType → Decimal → Decimal → Bool → String → TradeProposal
exit_proposal position order_type price qty emergency setup = record {
  pair = position.pair;
  side = sell;
  order_type = order_type;
  price = price;
  qty = qty;
  intent = Intent.exit;
  stop_loss = none;
  take_profit = none;
  target = none;
  is_emergency_exit = emergency;
  setup = setup;
  reason = "";
}

abbrev pub stop_hit : Decimal → Option Decimal → Bool
stop_hit bid none = false
stop_hit bid (some stop) = leb_ℤ bid stop

abbrev pub profit_hit : Decimal → Option Decimal → Bool
profit_hit bid none = false
profit_hit bid (some level) = leb_ℤ level bid

-- Held for the bars of the time stop; `bar` is the length of one in microseconds.
abbrev pub held_long : Option ℕ → ℕ → ℕ → ℕ → Bool
held_long none bar opened now = false
held_long (some zero) bar opened now = false
held_long (some (suc n)) bar opened now = leb (opened + suc n * bar) now

abbrev pub exit_at :
    Strategy → Position → PairInfo → Decimal → Decimal → ℕ → ℕ → Option TradeProposal
exit_at s position info bid qty bar now =
    if leb_ℤ qty (pos 0)
    then none
    else if stop_hit bid position.stop_loss
    then some (exit_proposal position OrderType.market bid qty true "stop_loss")
    else if profit_hit bid position.take_profit
    then some
        (exit_proposal position OrderType.limit (round_price info bid sell) qty false "take_profit")
    else if held_long s.p.max_hold_bars bar position.opened_at now
    then some
        (exit_proposal position OrderType.limit (round_price info bid buy) qty false "time_exit")
    else none

-- `bar` is `TIMEFRAMES[self.tf]`.
unfoldable pub propose_exit :
    Strategy → Position → PairInfo → OrderBook → ℕ → ℕ → Option TradeProposal
propose_exit s position info book bar now = elim (best_bid book) [
  | none ↦ none
  | some bid ↦
      if leb_ℤ position.qty (pos 0)
      then none
      else exit_at s position info bid (round_qty info position.qty) bar now
]
