-- ===== src/Strategy/Tests.antt =====
-- Runs of the rules on one order book.
use tio_indodax.Prelude.{◌≡◌, refl, Bool, true, none, some, [], ◌∷◌, pos, ◌<ℤ◌, arith}
use tio_indodax.Decimal.{Decimal, whole, fraction, arithmetic}
use tio_indodax.Dict.{Dict, lookup, insert}
use tio_indodax.Settings.{trend_follow}
use tio_indodax.Exchange.Models.{round_price, round_qty, floor_to_step, ceil_to_step}
use tio_indodax.Portfolio.{Position, Portfolio, raise_stop, moved}
use tio_indodax.Risk.Types.{TradeProposal, OrderType, next}
use tio_indodax.Risk.Evaluate.{is_emergency, check_state}
use tio_indodax.Risk.Tests.{info, book, manager, context}
use tio_indodax.Strategy.{
  TimeframeFeatures, Strategy, entry_proposal, exit_proposal, proposed, propose_entry, trend_entry,
  short_term_entry, sized_entry, ready, risk_qty, decline_if, trail_stop, propose_exit,
}
use tio_indodax.Strategy.Rules.{
  IsProtected, proposed-IsProtected, trail_stop_raises, stop_exit_passes,
}

unfoldable pub whole_strategy : Bool
unfolding arithmetic lookup insert round_price round_qty floor_to_step ceil_to_step raise_stop
    propose_entry trend_entry short_term_entry sized_entry ready risk_qty decline_if trail_stop
    propose_exit
whole_strategy = true

abbrev pub strategy : Strategy
strategy = record {
  p = record {
    timeframe = "1D";
    style = trend_follow;
    stop_atr_mult = fraction 3 2;
    tp_atr_mult = some (whole 2);
    max_hold_bars = none;
    trailing = true;
    rsi_entry = whole 30;
    chandelier_atr_mult = whole 3;
    target_atr_mult = whole 4;
    risk_per_trade_pct = whole 1;
    min_confidence = fraction 55 100;
  };
  capital_idr = whole 1000000;
}

abbrev pub features : Dict TimeframeFeatures
features =
    (
      "1D",
      record {
        close = some (whole 1000);
        rsi = some (whole 60);
        atr = some (whole 20);
        donchian_high = some (whole 990);
        ema_trend = some (whole 900);
        chandelier_stop = some (whole 951);
      },
    )
    ∷ []

-- One percent of the capital is lost between 1001 and 951.
abbrev breakout : TradeProposal
breakout =
    entry_proposal "btc_idr" (whole 1001) (whole 200) (whole 951) none (whole 1081) "trend_breakout"

enters : propose_entry strategy "btc_idr" info book features ≡ proposed breakout
unfolding whole_strategy
enters = refl

proposed-IsProtected_example : IsProtected "btc_idr" breakout
proposed-IsProtected_example =
    proposed-IsProtected strategy "btc_idr" info book features breakout enters

abbrev position : Position
position = record {
  pair = "btc_idr";
  qty = whole 10;
  avg_cost = whole 900;
  stop_loss = some (whole 800);
  take_profit = none;
  opened_at = 0;
  reason = "trend_breakout";
}

abbrev ledger : Portfolio
ledger = record {
  cash_idr = whole 1000;
  positions = ("btc_idr", position) ∷ [];
  realized_pnl = pos 0;
  fees_paid = pos 0;
}

trails : trail_stop strategy position features info ≡ some (whole 951)
unfolding whole_strategy
trails = refl

trail_stop_raises_example :
    (raise_stop ledger "btc_idr" (whole 951)
      ≡ some (true, moved ledger "btc_idr" (whole 951) position))
    × ((old : Decimal) → position.stop_loss ≡ some old → old <ℤ whole 951)
unfolding whole_strategy
trail_stop_raises_example =
    trail_stop_raises strategy ledger "btc_idr" position features info (whole 951) refl trails

abbrev endangered : Position
endangered = record position { stop_loss = some (whole 1000) }

stop_exit_passes_example :
    let p =
      exit_proposal endangered OrderType.market
        (whole 1000)
        (round_qty info (whole 10))
        true
        "stop_loss" in
    (propose_exit strategy endangered info book 86400000000 7 ≡ some p)
    × (is_emergency p ≡ true)
    × (check_state manager p context true true ≡ next tt)
unfolding whole_strategy
stop_exit_passes_example =
    stop_exit_passes strategy endangered info book 86400000000 7 (whole 1000) (whole 1000) manager
      context true true refl refl (omega arith) (omega arith) (omega arith)
