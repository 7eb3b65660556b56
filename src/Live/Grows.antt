-- ===== src/Live/Grows.antt =====
-- agent/exchange/trade_client.py: the coin that a reported state of an order stands for, and how it
-- grows with the reports.
use tio_indodax.Prelude.{◌≡◌, ◌⊎◌, Option, some, pos, ◌≤ℤ◌, ◌<ℤ◌}
use tio_indodax.Decimal.{Decimal, min, max}
use tio_indodax.Live.Remote.{OrderState, RemoteStatus, capped}

-- The received quantity is reported as before, or as no less than before.
abbrev pub Grows : Option Decimal → Option Decimal → Type 0
Grows old new =
    (new ≡ old)
    ⊎ ((r : Decimal) × (s : Decimal) × (old ≡ some r) × (new ≡ some s) × (pos 0 <ℤ r) × (r ≤ℤ s))

-- The order as it is reported later on.
pub record IsLater (old new : OrderState) : Type 0 where
  pub size : new.orig_qty ≡ old.orig_qty
  pub remaining : new.remaining_qty ≤ℤ old.remaining_qty
  pub stays : old.status ≡ RemoteStatus.filled → new.status ≡ RemoteStatus.filled
  pub received : Grows old.received_qty new.received_qty

-- What is booked of an amount.
abbrev within : Decimal → Option Decimal → Decimal → Decimal
within qty received amount = max (min (capped received amount) qty) (pos 0)
