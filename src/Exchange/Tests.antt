-- ===== src/Exchange/Tests.antt =====
-- Prices and quantities of a real pair, rounded, and a walk through a small book.
use Prim.Native.Nat.{◌*◌, ◌^◌}
use tio_indodax.Prelude.{
  All, ◌++◌, map, inl, inr, ◌≤◌, ◌≡◌, refl, true, false, none, some, [], ◌∷◌, arith, pos, ◌≤ℤ◌,
}
use tio_indodax.Decimal.{whole, fraction, arithmetic, unit}
use tio_indodax.Decimal.Rounding.{IsShort}
use tio_indodax.Exchange.Pairs.{
  Text, codes, upper_char, to_ticker_id, to_pair_id, to_symbol, base_asset,
}
use tio_indodax.Exchange.Models.{
  buy, sell, PairInfo, OrderBook, floor_to_step, ceil_to_step, round_price, round_qty,
  estimate_fill,
}
use tio_indodax.Exchange.Spellings.{to_ticker_id_round_trip}
use tio_indodax.Exchange.Snaps.{IsFloor, IsCeiling, round_qty_greatest, round_price_conservative}

abbrev info : PairInfo
info = record {
  ticker_id = "btc_idr";
  pair_id = "btcidr";
  symbol = "BTCIDR";
  base = "btc";
  quote = "idr";
  price_tick = some (whole 1000);
  qty_step = some (fraction 1 100000000);
  min_quote = some (whole 10000);
  min_base = none;
  maker_fee_pct = none;
  taker_fee_pct = none;
  is_maintenance = false;
  is_suspended = false;
}

snapped :
    (round_price info (whole 12345678) buy ≡ whole 12345000)
    × (round_price info (whole 12345678) sell ≡ whole 12346000)
    × (round_qty info (fraction 123456789987 100000000000) ≡ fraction 123456789 100000000)
unfolding round_price round_qty floor_to_step ceil_to_step arithmetic
snapped = (refl, refl, refl)

round_price_conservative_example :
    IsFloor (whole 12345678) (whole 1000) (round_price info (whole 12345678) buy)
    × IsCeiling (whole 12345678) (whole 1000) (round_price info (whole 12345678) sell)
unfolding unit
round_price_conservative_example =
    round_price_conservative info (whole 12345678) (whole 1000) refl (
      (60, 12345678, omega arith, refl),
      (12345678 * 10 ^ 57, (57, 12345678, omega arith, refl), refl),
    )

round_qty_greatest_example :
    IsFloor (pos (15 * 10 ^ 51)) (pos (10 ^ 52)) (round_qty info (pos (15 * 10 ^ 51)))
    × ((k : Prim.Native.Nat.ℕ)
        → IsShort (k * 10 ^ 52)
        → IsShort (k * unit)
        → k * 10 ^ 52 ≤ 15 * 10 ^ 51
        → pos (k * 10 ^ 52) ≤ℤ round_qty info (pos (15 * 10 ^ 51)))
unfolding unit
round_qty_greatest_example =
    round_qty_greatest info (15 * 10 ^ 51) 9999999999999999999999999999999999999999999999999999 refl
      ((51, 15, omega arith, refl), (15 * 10 ^ 59, (59, 15, omega arith, refl), refl))

abbrev book : OrderBook
book = record {
  pair = "btc_idr";
  bids = (whole 100, whole 1) ∷ (whole 80, whole 10) ∷ [];
  asks = (whole 101, whole 1) ∷ [];
}

walked :
    estimate_fill book sell (whole 180)
    ≡ some (record {
      filled_quote = whole 180;
      filled_base = whole 2;
      vwap = some (whole 90);
      slippage_pct = some (whole 10);
      fully_filled = true;
    })
unfolding estimate_fill arithmetic
walked = refl

spellings :
    (to_ticker_id (codes " BTC/idr ") ≡ some (codes "btc_idr"))
    × (to_ticker_id (codes "btcusdt") ≡ some (codes "btc_usdt"))
    × (to_pair_id (codes "BTC-IDR") ≡ some (codes "btcidr"))
    × (base_asset (codes "_idr") ≡ none)
    × (base_asset (codes "idr") ≡ none)
unfolding to_ticker_id to_pair_id base_asset
spellings = (refl, refl, refl, refl, refl)

to_ticker_id_round_trip_example :
    All
      (λ (p : Text).
        (to_ticker_id p ≡ some (codes "1inch" ++ (b'_' ∷ codes "usdt")))
        × (to_pair_id p ≡ some (codes "1inch" ++ codes "usdt"))
        × (to_symbol p ≡ some (map upper_char (codes "1inch" ++ codes "usdt"))))
      ((codes "1inch" ++ (b'_' ∷ codes "usdt"))
        ∷ (codes "1inch" ++ codes "usdt")
        ∷ map upper_char (codes "1inch" ++ codes "usdt")
        ∷ [])
to_ticker_id_round_trip_example =
    to_ticker_id_round_trip (codes "1inch") (codes "usdt")
      ((λ e. absurd (ground arith)), ground arith) (inr (inl refl))
