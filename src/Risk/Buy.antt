-- ===== src/Risk/Buy.antt =====
-- `_evaluate_buy`, in the order of the source: protection, cooldown and positions, the price, the
-- sizing under the caps, the way out at the stop, liquidity, and the edge over the costs.
use Prim.Native.Nat.{◌+◌, ◌*◌}
use tio_indodax.Prelude.{
  ℕ, String, Bool, true, false, not, ◌&&◌, Option, none, some, List, [], ◌∷◌, ltb, leb,
  if◌then◌else◌, pos, ltb_ℤ, leb_ℤ, str_eq, length, some_of,
}
use tio_indodax.Decimal.{Decimal, ◌⊕◌, ◌⊖◌, ◌⊗◌, ◌⊘◌, divide, whole, fraction, sum}
use tio_indodax.Dict.{Dict, lookup, get_or, values}
use tio_indodax.Settings.{RiskLimits}
use tio_indodax.Costs.{leg_fee_pct, round_trip, total_pct}
use tio_indodax.Exchange.Pairs.{Text, codes, text_eq, base_asset}
use tio_indodax.Exchange.Models.{
  buy, sell, PairInfo, OrderBook, Ticker, FillEstimate, best_bid, best_ask, spread_pct,
  estimate_fill, round_price, round_qty, min_order_violation, truthy,
}
use tio_indodax.Exchange.Models
use tio_indodax.Risk.Types.{
  RiskManager, RiskContext, MarketView, TradeProposal, RiskDecision, Cap, Reason, approve, resize,
  max_position, max_asset_exposure, agent_capital, agent_cash, exchange_free_idr, stop_missing,
  stop_above_entry, no_target, cooling_down, max_positions, book_empty, bid_too_high, no_room,
  size_zero, too_small_to_exit, wide_spread, low_volume, thin_book, exit_slippage, poor_edge,
  all_passed, resized_by, Step, next, stop, return_if, or_raise, vetoed, ◌>>=◌, ◌>>◌,
}
use tio_indodax.Risk.Sell.{less_pct, violated, violation_reason, is_limit}

-- EXIT_MIN_MARGIN
unfoldable pub exit_min_margin : Decimal
exit_min_margin = fraction 12 10

-- The local `veto` of this method.
abbrev pub veto_buy : TradeProposal → List Reason → RiskDecision
veto_buy p why = vetoed p false false why

abbrev pub veto_if : TradeProposal → Bool → Reason → Step (Unit {0})
veto_if p test why = return_if test (veto_buy p (why ∷ []))

-- A value, or the veto where it is `None`.
abbrev pub need : {A : Type 0} → TradeProposal → Reason → Option A → Step A
need p why none = stop (veto_buy p (why ∷ []))
need p why (some a) = next a

-- p.stop_loss is None or p.stop_loss <= 0
abbrev pub no_stop : Option Decimal → Bool
no_stop none = true
no_stop (some s) = leb_ℤ s (pos 0)

abbrev pub stop_at_least : Option Decimal → Decimal → Bool
stop_at_least none price = false
stop_at_least (some s) price = leb_ℤ price s

abbrev pub reference : TradeProposal → Option Decimal
reference p = elim p.take_profit [ none ↦ p.target | some t ↦ some t ]

-- The expected-move reference, once the stop and the target have been checked.
unfoldable pub check_protection : RiskLimits → TradeProposal → Step Decimal
check_protection limits p = do
  veto_if p (limits.require_stop_loss && no_stop p.stop_loss) stop_missing
  veto_if p (stop_at_least p.stop_loss p.price) stop_above_entry
  ref ← need p no_target (reference p)
  veto_if p (leb_ℤ ref p.price) no_target
  next ref

-- timedelta(minutes=n), in microseconds
abbrev pub minutes : ℕ → ℕ
minutes n = n * 60_000_000

unfoldable pub cooling : RiskLimits → RiskContext → String → Bool
cooling limits ctx pair = elim (lookup pair ctx.last_stoploss_at) [
  | none ↦ false
  | some at ↦ ltb ctx.now (at + minutes limits.stoploss_cooldown_minutes)
]

-- The keys with a value above 0, added to a set.
abbrev pub member : String → List String → Bool
member k ks = some_of (str_eq k) ks

unfoldable pub add_positive : Dict Decimal → List String → List String
add_positive [] ks = ks
add_positive ((k, v) ∷ d) ks =
    add_positive d (if ltb_ℤ (pos 0) v && not (member k ks) then k ∷ ks else ks)

unfoldable pub open_pairs : RiskContext → List String
open_pairs ctx = add_positive ctx.pending_buy_idr (add_positive ctx.position_qty [])

unfoldable pub check_exposure : RiskLimits → RiskContext → TradeProposal → Step (Unit {0})
check_exposure limits ctx p = do
  veto_if p (cooling limits ctx p.pair) cooling_down
  veto_if p
      (not (member p.pair (open_pairs ctx))
        && leb limits.max_open_positions (length (open_pairs ctx)))
      max_positions

-- 1 + pct / 100
abbrev pub more_pct : Decimal → Decimal
more_pct pct = whole 1 ⊕ pct ⊘ whole 100

-- The rounded price, with the best ask and bid that it was held against.
pub record Quote : Type 0 where
  pub price : Decimal
  pub ask : Decimal
  pub bid : Decimal

unfoldable pub check_price : RiskManager → TradeProposal → MarketView → Step Quote
check_price m p mv = do
  let price = round_price mv.info p.price buy
  ask ← need p book_empty (best_ask mv.orderbook)
  bid ← need p book_empty (best_bid mv.orderbook)
  veto_if p (ltb_ℤ (ask ⊗ more_pct m.market.max_slippage_pct) price) bid_too_high
  next (record { price = price; ask = ask; bid = bid })

-- sum(v for k, v in d.items() if base_asset(k) == asset)
unfoldable pub asset_values : Dict Decimal → Text → Option (List Decimal)
asset_values [] asset = some []
asset_values ((k, v) ∷ d) asset = Models.◌>>=◌ (base_asset (codes k)) (λ a.
    Models.◌>>=◌ (asset_values d asset) (λ rest. some (if text_eq a asset then v ∷ rest else rest)))

abbrev pub Caps : Type 0
Caps = List (Cap × Decimal)

abbrev exchange_cap : Option Decimal → Decimal → Option Caps
exchange_cap none fee_mult = some []
exchange_cap (some free) fee_mult =
    Models.◌>>=◌ (divide free fee_mult) (λ c. some ((exchange_free_idr, c) ∷ []))

unfoldable pub caps : RiskManager → RiskContext → TradeProposal → PairInfo → Step Caps
caps m ctx p info = do
  let capital = m.limits.agent_capital_idr
  let pos_val =
      get_or ctx.position_value_idr p.pair (pos 0) ⊕ get_or ctx.pending_buy_idr p.pair (pos 0)
  asset ← or_raise (base_asset (codes p.pair))
  held ← or_raise (asset_values ctx.position_value_idr asset)
  pending ← or_raise (asset_values ctx.pending_buy_idr asset)
  let asset_val = sum held ⊕ sum pending
  let deployed = sum (values ctx.position_value_idr) ⊕ sum (values ctx.pending_buy_idr)
  let fee_mult = more_pct (leg_fee_pct m.fees info false)
  let committed_cash = sum (values ctx.pending_buy_idr)
  cash ← or_raise (divide (ctx.cash_idr ⊖ committed_cash) fee_mult)
  free ← or_raise (exchange_cap ctx.exchange_free_idr fee_mult)
  next (
      (max_position, capital ⊗ m.limits.max_position_pct ⊘ whole 100 ⊖ pos_val)
      ∷ (max_asset_exposure, capital ⊗ m.limits.max_asset_exposure_pct ⊘ whole 100 ⊖ asset_val)
      ∷ (agent_capital, capital ⊖ deployed)
      ∷ (agent_cash, cash)
      ∷ free)

-- min(caps.values()), with the first cap that has it.
unfoldable pub least : Cap × Decimal → Caps → Cap × Decimal
least c [] = c
least c (d ∷ ds) = least (if ltb_ℤ d.1 c.1 then d else c) ds

abbrev pub binding_cap : Caps → Cap × Decimal
binding_cap [] = (agent_capital, pos 0)
binding_cap (c ∷ cs) = least c cs

pub record Size : Type 0 where
  pub qty : Decimal
  pub resized : Bool
  pub binding : Cap
  pub allowed : Decimal

-- The quantity before and after the cap.
abbrev pub capped_qty : PairInfo → Bool → Decimal → Decimal → Decimal → Option Decimal
capped_qty info false qty allowed price = some qty
capped_qty info true qty allowed price =
    Models.◌>>=◌ (divide allowed price) (λ q. some (round_qty info q))

unfoldable pub size : TradeProposal → PairInfo → Decimal → Cap × Decimal → Step Size
size p info price (binding, allowed) = do
  veto_if p (leb_ℤ allowed (pos 0)) (no_room binding)
  let full = round_qty info p.qty
  let over = ltb_ℤ allowed (full ⊗ price)
  qty ← or_raise (capped_qty info over full allowed price)
  veto_if p (leb_ℤ qty (pos 0)) (size_zero binding)
  let why = min_order_violation info price qty
  return_if (violated why) (veto_buy p (violation_reason why))
  next (record { qty = qty; resized = over; binding = binding; allowed = allowed })

-- The whole position, sold at the stop less the emergency slippage.
unfoldable pub exit_value : RiskLimits → RiskContext → TradeProposal → Decimal → Decimal → Decimal
exit_value limits ctx p stop_loss qty =
    (get_or ctx.position_qty p.pair (pos 0) ⊕ qty)
    ⊗ (stop_loss ⊗ less_pct limits.emergency_exit_max_slippage_pct)

abbrev pub too_small :
    RiskLimits → RiskContext → TradeProposal → Decimal → Option Decimal → Option Decimal → Bool
too_small limits ctx p qty (some minimum) (some s) =
    ltb_ℤ (exit_value limits ctx p s qty) (minimum ⊗ exit_min_margin)
too_small limits ctx p qty _ _ = false

abbrev pub under : Option Decimal → Decimal → Bool
under none least_volume = true
under (some v) least_volume = ltb_ℤ v least_volume

-- The spread and the slippage of selling the size again.
unfoldable pub check_liquidity :
    RiskManager → TradeProposal → MarketView → Decimal → Step (Decimal × Decimal)
check_liquidity m p mv notional = do
  spread ← need p wide_spread (spread_pct mv.orderbook)
  veto_if p (ltb_ℤ m.market.max_spread_pct spread) wide_spread
  veto_if p (under mv.ticker.vol_quote m.market.min_volume_24h_idr) low_volume
  est ← or_raise (estimate_fill mv.orderbook sell notional)
  veto_if p (not est.fully_filled) thin_book
  slip ← need p thin_book est.slippage_pct
  veto_if p (ltb_ℤ m.market.max_slippage_pct slip) exit_slippage
  next (spread, slip)

-- A limit under the ask is a maker; anything else pays as a taker.
abbrev pub entry_maker : TradeProposal → Quote → Bool
entry_maker p q = is_limit p.order_type && ltb_ℤ q.price q.ask

unfoldable pub check_edge :
    RiskManager → TradeProposal → PairInfo → Quote → Decimal → Decimal → Decimal → Step (Unit {0})
check_edge m p info q ref spread slip = do
  move ← or_raise (divide (ref ⊖ q.price) q.price)
  let costs = round_trip m.fees info spread slip (entry_maker p q) false
  veto_if p (ltb_ℤ (move ⊗ whole 100) (total_pct costs ⊗ m.fees.min_edge_multiple)) poor_edge

unfoldable pub buy_decision : TradeProposal → Decimal → Size → RiskDecision
buy_decision p price s = record {
  verdict = if s.resized then resize else approve;
  proposal = p;
  qty = s.qty;
  price = price;
  reasons = (if s.resized then resized_by s.binding else all_passed) ∷ [];
  trigger_halt = false;
  trigger_daily_stop = false;
}

unfoldable pub evaluate_buy :
    RiskManager → TradeProposal → RiskContext → MarketView → Step RiskDecision
evaluate_buy m p ctx mv = do
  ref ← check_protection m.limits p
  check_exposure m.limits ctx p
  q ← check_price m p mv
  cs ← caps m ctx p mv.info
  s ← size p mv.info q.price (binding_cap cs)
  veto_if p (too_small m.limits ctx p s.qty (truthy mv.info.min_quote) p.stop_loss)
      too_small_to_exit
  liquid ← check_liquidity m p mv (s.qty ⊗ q.price)
  check_edge m p mv.info q ref liquid.0 liquid.1
  next (buy_decision p q.price s)
