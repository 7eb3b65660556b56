-- ===== src/Strategy/Rules.antt =====
-- What every proposal of the strategy is.
use tio_indodax.Prelude.{
  ℕ, String, ◌≡◌, refl, Bool, true, false, Option, none, some, arith, inl, inr, Bool-cases,
  Option-cases, pos, ◌<ℤ◌, ◌≤ℤ◌, leb_ℤ,
}
use mathlib.Core.Path.{subst}
use tio_indodax.Decimal.{Decimal}
use tio_indodax.Dict.{Dict, lookup}
use tio_indodax.Settings.{Style, trend_follow, st_breakout, st_pullback}
use tio_indodax.Exchange.Models.{
  buy, PairInfo, OrderBook, best_bid, best_ask, round_price, round_qty,
}
use tio_indodax.Portfolio.{Position, Portfolio, raise_stop, moved, not_above}
use tio_indodax.Risk.Types.{RiskManager, RiskContext, TradeProposal, OrderType, Intent, next}
use tio_indodax.Risk.Evaluate.{is_emergency, check_state}
use tio_indodax.Strategy.{
  TimeframeFeatures, Ready, Entry, EntryNote, proposed, Strategy, invalid, entry_proposal,
  trend_entry, sized_entry, short_term_entry, propose_entry, ready, trail_stop, exit_proposal,
  propose_exit, decline_if, by_style, above_trend, quoted, higher, chandelier_of,
}

-- A limit buy of a positive quantity at a positive stop below its price.
pub record IsProtected (pair : String) (p : TradeProposal) : Type 0 where
  pub own_pair : p.pair ≡ pair
  pub a_buy : p.side ≡ buy
  pub a_limit : p.order_type ≡ OrderType.limit
  pub an_entry : p.intent ≡ Intent.entry
  pub some_qty : pos 0 <ℤ p.qty
  pub stop : (s : Decimal) × (p.stop_loss ≡ some s) × (pos 0 <ℤ s) × (s <ℤ p.price)
  pub target : (t : Decimal) × (p.target ≡ some t)

module _ (s : Strategy) (pair : String) (info : PairInfo) (ask : Decimal) (f : Ready)
    (p : TradeProposal) where
  valid-IsProtected :
      (entry qty sl : Decimal) (tp : Option Decimal) (target : Decimal) (setup : String)
      → invalid sl entry ≡ false
      → leb_ℤ qty (pos 0) ≡ false
      → proposed (entry_proposal pair entry qty sl tp target setup) ≡ proposed p
      → IsProtected pair p
  valid-IsProtected entry qty sl tp target setup v q e =
      let same : entry_proposal pair entry qty sl tp target setup ≡ p = ground arith in
      subst (IsProtected pair) same (record {
        own_pair = refl;
        a_buy = refl;
        a_limit = refl;
        an_entry = refl;
        some_qty = ground arith;
        stop = (sl, refl, ground arith, ground arith);
        target = (target, refl);
      })

  -- What is proposed got past a test that declines.
  not_declined :
      (test : Bool) (note : EntryNote) (x : Entry)
      → decline_if test note x ≡ proposed p
      → (test ≡ false) × (x ≡ proposed p)
  unfolding decline_if
  not_declined true note x e = absurd (ground arith)
  not_declined false note x e = (refl, e)

  trend-IsProtected : trend_entry s pair info ask f ≡ proposed p → IsProtected pair p
  unfolding trend_entry
  trend-IsProtected e =
      let (_, e1) = not_declined _ _ _ e in
      let (v, e2) = not_declined _ _ _ e1 in
      let (_, e3) = not_declined _ _ _ e2 in
      let (q, e4) = not_declined _ _ _ e3 in valid-IsProtected _ _ _ _ _ _ v q e4

  sized-IsProtected :
      (setup : String) → sized_entry s pair info ask f setup ≡ proposed p → IsProtected pair p
  unfolding sized_entry
  sized-IsProtected setup e =
      let (v, e1) = not_declined _ _ _ e in
      let (q, e2) = not_declined _ _ _ e1 in valid-IsProtected _ _ _ _ _ _ v q e2

  short_term-IsProtected :
      (rsi : Option Decimal) (style : Style)
      → short_term_entry s pair info ask f rsi style ≡ proposed p
      → IsProtected pair p
  unfolding short_term_entry
  short_term-IsProtected rsi st_breakout e =
      sized-IsProtected "st_breakout" (not_declined _ _ _ e).1
  short_term-IsProtected rsi st_pullback e =
      sized-IsProtected "st_pullback" (not_declined _ _ _ e).1
  short_term-IsProtected rsi trend_follow e =
      sized-IsProtected "st_pullback" (not_declined _ _ _ e).1

  style-IsProtected :
      (rsi : Option Decimal) (style : Style)
      → by_style s pair info ask f rsi style ≡ proposed p
      → IsProtected pair p
  style-IsProtected rsi trend_follow e = trend-IsProtected e
  style-IsProtected rsi st_breakout e = short_term-IsProtected rsi st_breakout e
  style-IsProtected rsi st_pullback e = short_term-IsProtected rsi st_pullback e

ready-IsProtected :
    (s : Strategy) (pair : String) (info : PairInfo) (ask : Decimal) (rsi : Option Decimal)
    (r : Option Ready) (p : TradeProposal)
    → above_trend s pair info ask rsi r ≡ proposed p
    → IsProtected pair p
ready-IsProtected s pair info ask rsi none p e = absurd (ground arith)
ready-IsProtected s pair info ask rsi (some f) p e =
    style-IsProtected s pair info ask f p rsi s.p.style (not_declined s pair info ask f p _ _ _ e).1

quoted-IsProtected :
    (s : Strategy) (pair : String) (info : PairInfo) (f : TimeframeFeatures)
    (bid ask : Option Decimal) (p : TradeProposal)
    → quoted s pair info f bid ask ≡ proposed p
    → IsProtected pair p
quoted-IsProtected s pair info f (some bid) (some ask) p e =
    ready-IsProtected s pair info ask f.rsi (ready f) p e
quoted-IsProtected s pair info f none ask p e = absurd (ground arith)
quoted-IsProtected s pair info f (some bid) none p e = absurd (ground arith)

-- What the strategy proposes to enter is a limit buy of the pair, of a positive quantity, with a
-- target and with a stop-loss that is positive and below its price.
pub proposed-IsProtected :
    (s : Strategy) (pair : String) (info : PairInfo) (book : OrderBook)
    (features : Dict TimeframeFeatures) (p : TradeProposal)
    → propose_entry s pair info book features ≡ proposed p
    → IsProtected pair p
unfolding propose_entry
proposed-IsProtected s pair info book features p e =
    elim (Option-cases (lookup s.p.timeframe features)) [
      | inl missing ↦ absurd (ground arith)
      | inr (f, there) ↦
          quoted-IsProtected s pair info f (best_bid book) (best_ask book) p
            (rw (there, propose_entry) at e)
    ]

higher_up :
    (x new : Decimal) (old : Option Decimal)
    → higher x old ≡ some new
    → (not_above new old ≡ false) × ((o : Decimal) → old ≡ some o → o <ℤ new)
higher_up x new none e = (refl, λ o h. absurd (ground arith))
higher_up x new (some old) e = (ground arith, λ o h. ground arith)

-- A stop that the strategy moves is raised: `raise_stop` accepts it, and it is above the one before.
pub trail_stop_raises :
    (s : Strategy) (pf : Portfolio) (k : String) (position : Position)
    (features : Dict TimeframeFeatures) (info : PairInfo) (new : Decimal)
    → lookup k pf.positions ≡ some position
    → trail_stop s position features info ≡ some new
    → (raise_stop pf k new ≡ some (true, moved pf k new position))
      × ((old : Decimal) → position.stop_loss ≡ some old → old <ℤ new)
unfolding trail_stop raise_stop
trail_stop_raises s pf k position features info new held e = elim (Bool-cases s.p.trailing) [
  | inl on ↦ elim (Option-cases (chandelier_of (lookup s.p.timeframe features))) [
    | inl missing ↦ absurd (ground arith)
    | inr (level, there) ↦
        let (stays, above) =
          higher_up (round_price info level buy) new position.stop_loss
            (rw (on, there, trail_stop) at e) in
        (rw (held, stays, raise_stop) refl, above)
  ]
  | inr off ↦ absurd (ground arith)
]

-- When the best bid has fallen to the stop-loss of a position whose quantity does not round to
-- nothing, the strategy proposes to sell it at the market as an emergency exit, and neither the
-- agent's status nor the counts of its orders hold that proposal back.
pub stop_exit_passes :
    (s : Strategy) (position : Position) (info : PairInfo) (book : OrderBook) (bar now : ℕ)
    (bid stop : Decimal) (m : RiskManager) (ctx : RiskContext) (halt daily : Bool)
    → best_bid book ≡ some bid
    → position.stop_loss ≡ some stop
    → bid ≤ℤ stop
    → pos 0 <ℤ position.qty
    → pos 0 <ℤ round_qty info position.qty
    → let p =
        exit_proposal position OrderType.market bid
          (round_qty info position.qty)
          true
          "stop_loss" in
      (propose_exit s position info book bar now ≡ some p)
      × (is_emergency p ≡ true)
      × (check_state m p ctx halt daily ≡ next tt)
unfolding propose_exit is_emergency check_state
stop_exit_passes s position info book bar now bid stop m ctx halt daily b st hit some_qty rounds =
    let held : leb_ℤ position.qty (pos 0) ≡ false = ground arith in
    let sold : leb_ℤ (round_qty info position.qty) (pos 0) ≡ false = ground arith in
    let fallen : leb_ℤ bid stop ≡ true = ground arith in
    (rw (b, held, sold, st, fallen, propose_exit) refl, refl, ground arith)
