-- ===== src/Risk/Purchases.antt =====
-- What an approved purchase is: a stop below the entry, no more room taken than the caps leave, a way
-- out at the stop and in the book, and an expected move that pays for the costs.
use Prim.Native.Nat.{◌+◌}
use tio_indodax.Prelude.{
  ℕ, [], ◌∷◌, ◌<◌, ◌≤◌, ◌≡◌, ◌⊎◌, true, false, if◌then◌else◌, ltb_ℤ, Option, none, some, arith, pos,
  ◌<ℤ◌, ◌≤ℤ◌, inl, inr, Option-cases, length,
}
use tio_indodax.Decimal.{Decimal, ◌⊗◌, ◌⊖◌, divide, whole}
use tio_indodax.Dict.{lookup}
use tio_indodax.Exchange.Models.{
  buy, sell, FillEstimate, best_bid, best_ask, spread_pct, estimate_fill, round_price, round_qty,
}
use tio_indodax.Costs.{round_trip, total_pct}
use tio_indodax.Risk.Types.{RiskManager, RiskContext, MarketView, TradeProposal, Cap, next}
use tio_indodax.Risk.Buy.{
  check_protection, cooling, member, open_pairs, check_exposure, more_pct, Quote, check_price, Caps,
  least, binding_cap, Size, size, exit_value, exit_min_margin, too_small, check_liquidity,
  entry_maker, check_edge, reference, minutes,
}
use tio_indodax.Risk.Sales.{IsOrderable, violation-none}

-- Every cap of the list leaves at least this much.
abbrev pub UnderAll : Decimal → Caps → Type 0
UnderAll x [] = Unit
UnderAll x (c ∷ cs) = (x ≤ℤ c.1) × UnderAll x cs

pub UnderAll-le : (x y : Decimal) (cs : Caps) → x ≤ℤ y → UnderAll y cs → UnderAll x cs
UnderAll-le x y [] h u = tt
UnderAll-le x y (c ∷ cs) h u = (omega arith, UnderAll-le x y cs h u.1)

least-UnderAll : (c : Cap × Decimal) (cs : Caps) → UnderAll (least c cs).1 (c ∷ cs)
unfolding least
least-UnderAll c [] = (omega arith, tt)
least-UnderAll c (d ∷ ds) =
    let lower = if ltb_ℤ d.1 c.1 then d else c in
    let rest = least-UnderAll lower ds in (ground (arith, rest.0), (ground (arith, rest.0), rest.1))

pub binding_cap-UnderAll : (cs : Caps) → UnderAll (binding_cap cs).1 cs
binding_cap-UnderAll [] = tt
binding_cap-UnderAll (c ∷ cs) = least-UnderAll c cs

module _ (m : RiskManager) (p : TradeProposal) (ctx : RiskContext) (mv : MarketView) where
  -- The stop is set where the settings demand one, and lies below the entry; the reference lies above.
  pub record IsProtected (ref : Decimal) : Type 0 where
    pub stop_set :
        m.limits.require_stop_loss ≡ true → (s : Decimal) × (p.stop_loss ≡ some s) × (pos 0 <ℤ s)
    pub stop_below : (s : Decimal) → p.stop_loss ≡ some s → s <ℤ p.price
    pub ref_above : p.price <ℤ ref
    pub ref_of : reference p ≡ some ref

  pub protection-IsProtected :
      (ref : Decimal) → check_protection m.limits p ≡ next ref → IsProtected ref
  unfolding check_protection
  protection-IsProtected ref e = record {
    stop_set = λ must. elim (Option-cases p.stop_loss) [
      | inl missing ↦ absurd (ground arith)
      | inr (s, there) ↦ (s, there, ground arith)
    ];
    stop_below = ground arith;
    ref_above = ground arith;
    ref_of = ground arith;
  }

  -- No stop-loss of the pair lies within the cooldown, and a new pair finds a free place.
  pub record IsExposable : Type 0 where
    pub cooled :
        (at : ℕ)
        → lookup p.pair ctx.last_stoploss_at ≡ some at
        → at + minutes m.limits.stoploss_cooldown_minutes ≤ ctx.now
    pub place :
        (member p.pair (open_pairs ctx) ≡ true)
        ⊎ (length (open_pairs ctx) < m.limits.max_open_positions)

  pub exposure-IsExposable : check_exposure m.limits ctx p ≡ next tt → IsExposable
  unfolding check_exposure cooling
  exposure-IsExposable e = record { cooled = ground arith; place = ground arith }

  pub record IsQuoted (q : Quote) : Type 0 where
    pub rounded_price : q.price ≡ round_price mv.info p.price buy
    pub at_ask : best_ask mv.orderbook ≡ some q.ask
    pub at_bid : best_bid mv.orderbook ≡ some q.bid
    pub near_ask : q.price ≤ℤ q.ask ⊗ more_pct m.market.max_slippage_pct

  pub price-IsQuoted : (q : Quote) → check_price m p mv ≡ next q → IsQuoted q
  unfolding check_price
  price-IsQuoted q e = record {
    rounded_price = ground arith;
    at_ask = ground arith;
    at_bid = ground arith;
    near_ask = ground arith;
  }

  -- The size: as proposed where that is worth no more than the least cap, else what that cap buys.
  pub record IsSized (price allowed : Decimal) (s : Size) : Type 0 where
    pub room : pos 0 <ℤ allowed
    pub kept : s.resized ≡ false → (s.qty ≡ round_qty mv.info p.qty) × (s.qty ⊗ price ≤ℤ allowed)
    pub cut :
        s.resized ≡ true
        → (q : Decimal) × (divide allowed price ≡ some q) × (s.qty ≡ round_qty mv.info q)
    pub orderable : IsOrderable mv.info price s.qty

  pub size-IsSized :
      (price : Decimal) (c : Cap × Decimal) (s : Size)
      → size p mv.info price c ≡ next s
      → IsSized price c.1 s
  unfolding size
  size-IsSized price c s e = record {
    room = ground arith;
    kept = λ same. (ground arith, ground arith);
    cut = λ over. elim (Option-cases (divide c.1 price)) [
      | inl failed ↦ absurd (ground arith)
      | inr (q, there) ↦ (q, there, ground arith)
    ];
    orderable = violation-none mv.info price s.qty (ground arith);
  }

  -- The spread, the day's volume and the slippage of selling the size again are within the settings.
  pub record IsLiquid (notional spread slip : Decimal) : Type 0 where
    pub spread_of : spread_pct mv.orderbook ≡ some spread
    pub narrow : spread ≤ℤ m.market.max_spread_pct
    pub volume : (v : Decimal) × (mv.ticker.vol_quote ≡ some v) × (m.market.min_volume_24h_idr ≤ℤ v)
    pub exit_fill :
        (est : FillEstimate) × (estimate_fill mv.orderbook sell notional ≡ some est)
        × (est.fully_filled ≡ true)
        × (est.slippage_pct ≡ some slip)
    pub small_slip : slip ≤ℤ m.market.max_slippage_pct

  pub liquidity-IsLiquid :
      (n : Decimal) (l : Decimal × Decimal) → check_liquidity m p mv n ≡ next l → IsLiquid n l.0 l.1
  unfolding check_liquidity
  liquidity-IsLiquid n l e = elim (Option-cases mv.ticker.vol_quote) [
    | inl missing ↦ absurd (ground arith)
    | inr (v, there) ↦ elim (Option-cases (estimate_fill mv.orderbook sell n)) [
      | inl failed ↦ absurd (ground arith)
      | inr (est, filled) ↦ record {
        spread_of = ground arith;
        narrow = ground arith;
        volume = (v, there, ground arith);
        exit_fill = (est, filled, ground arith, ground arith);
        small_slip = ground arith;
      }
    ]
  ]

  -- The expected move, in percent of the price, covers the costs of the round trip as often as the
  -- settings want.
  pub record HasEdge (q : Quote) (ref spread slip : Decimal) : Type 0 where
    pub move :
        (x : Decimal) × (divide (ref ⊖ q.price) q.price ≡ some x)
        × (total_pct (round_trip m.fees mv.info spread slip (entry_maker p q) false)
              ⊗ m.fees.min_edge_multiple
            ≤ℤ x ⊗ whole 100)

  pub edge-HasEdge :
      (q : Quote) (ref spread slip : Decimal)
      → check_edge m p mv.info q ref spread slip ≡ next tt
      → HasEdge q ref spread slip
  unfolding check_edge
  edge-HasEdge q ref spread slip e = elim (Option-cases (divide (ref ⊖ q.price) q.price)) [
    | inl failed ↦ absurd (ground arith)
    | inr (x, there) ↦ record { move = (x, there, ground arith) }
  ]

  -- Where the exchange has a minimum, the whole position sold at the stop less the emergency
  -- slippage is worth the minimum with its margin.
  abbrev pub CanExit : Decimal → Option Decimal → Option Decimal → Type 0
  CanExit qty (some minimum) (some s) = minimum ⊗ exit_min_margin ≤ℤ exit_value m.limits ctx p s qty
  CanExit qty _ _ = Unit

  pub small-CanExit :
      (qty : Decimal) (minimum s : Option Decimal)
      → too_small m.limits ctx p qty minimum s ≡ false
      → CanExit qty minimum s
  small-CanExit qty (some minimum) (some s) h = ground arith
  small-CanExit qty (some minimum) none h = tt
  small-CanExit qty none s h = tt
