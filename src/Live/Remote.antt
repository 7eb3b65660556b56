-- ===== src/Live/Remote.antt =====
-- agent/exchange/trade_client.py: what the exchange says of an order.
use tio_indodax.Prelude.{String, Option, none, some, if◌then◌else◌, pos, ltb_ℤ, leb_ℤ}
use tio_indodax.Decimal.{Decimal, ◌⊖◌, ◌⊗◌, ◌⊘◌, whole, min, max}
use tio_indodax.Exchange.Models.{truthy, floor_to_step}

pub record OrderAck : Type 0 where
  pub order_id : String
  pub filled_qty : Decimal
  pub filled_quote : Decimal
  pub fee_idr : Option Decimal

pub data RemoteStatus : Type 0 where
  still_open filled cancelled : RemoteStatus

pub record OrderState : Type 0 where
  pub order_id : String
  pub price : Decimal
  pub orig_qty : Decimal
  pub remaining_qty : Decimal
  pub status : RemoteStatus
  pub received_qty : Option Decimal

unfoldable pub filled_fraction : OrderState → Decimal
filled_fraction st =
    if leb_ℤ st.orig_qty (pos 0)
    then pos 0
    else min (max ((st.orig_qty ⊖ st.remaining_qty) ⊘ st.orig_qty) (pos 0)) (whole 1)

abbrev pub to_step : Option Decimal → Decimal → Decimal
to_step none amount = amount
to_step (some step) amount = floor_to_step amount step

-- The coin that the fraction stands for.
unfoldable pub partial_fill : OrderState → Decimal → Option Decimal → Decimal
unfolding filled_fraction
partial_fill st submitted_qty step = to_step (truthy step) (submitted_qty ⊗ filled_fraction st)

abbrev pub capped : Option Decimal → Decimal → Decimal
capped none amount = amount
capped (some received) amount = if ltb_ℤ (pos 0) received then min amount received else amount

-- The coin before it is capped.
abbrev pub uncapped : OrderState → Decimal → Option Decimal → Decimal
uncapped st submitted_qty step = elim st.status [
  | RemoteStatus.filled ↦ submitted_qty
  | _ ↦ partial_fill st submitted_qty step
]

unfoldable pub filled_for : OrderState → Decimal → Option Decimal → Decimal
unfolding partial_fill
filled_for st submitted_qty step =
    max (min (capped st.received_qty (uncapped st submitted_qty step)) submitted_qty) (pos 0)
