-- ===== src/Live/Calls.antt =====
-- The state of agent/execution/executor.py, and its calls of the exchange.
use tio_indodax.Prelude.{
  ℕ, String, Bool, true, false, ◌||◌, Option, none, some, List, [], ◌∷◌, ◌++◌, if◌then◌else◌, pos,
  leb_ℤ,
}
use tio_indodax.Decimal.{Decimal}
use tio_indodax.Dict.{Dict, insert}
use tio_indodax.Costs.{FeeSettings}
use tio_indodax.Exchange.Pairs.{Text, codes, base_asset}
use tio_indodax.Exchange.Models.{Side, other, PairInfo}
use tio_indodax.Storage.{Database, Order, OrderId}
use tio_indodax.Portfolio.{Portfolio}
use tio_indodax.Calls.{Call, modify, fail}
use tio_indodax.Live.Remote.{OrderAck, OrderState}

-- How a request to place an order ends: with an acknowledgement, with an error of the exchange that
-- says that the id already exists, with another error of the exchange, or with no readable answer.
pub data Placing : Type 0 where
  acknowledged : OrderAck → Placing
  already_exists refused unknown : Placing

-- How a look at an order ends: with its state, with the answer that there is no such order, or with
-- an error.
pub data Looking : Type 0 where
  found : OrderState → Looking
  not_found lookup_failed : Looking

-- How a request to cancel ends: done (also where the order is closed already), or with an error.
pub data Cancelling : Type 0 where
  done cancel_failed : Cancelling

-- The exchange: the answers to come, and the requests it was sent. With no answer left, it does not
-- answer. An answer to a request to place an order that is `none` ends the call with an error that is
-- none of the client's own (a cancelled task, a value that does not parse), after the request was sent.
pub record Exchange : Type 0 where
  pub placing : List (Option Placing)
  pub looking : List Looking
  pub cancelling : List Cancelling
  pub sent : List OrderId
  pub cancelled : List OrderId

-- Times are in microseconds.
pub record LiveExecutor : Type 0 where
  pub db : Database
  pub pf : Portfolio
  pub client : Exchange
  pub costs : FeeSettings
  pub emergency_slippage : Decimal
  pub mode : String
  pub entry_ttl : ℕ
  pub pending_grace : ℕ
  pub infos : Dict PairInfo

abbrev pub Action : Type 0 → Type 0
Action A = Call LiveExecutor A

-- A write to the database.
abbrev pub write : (Database → Database) → Action (Unit {0})
write f = modify (λ b. record b { db = f b.db })

-- self.infos[pair] = info
unfoldable pub learn_info : String → PairInfo → Action (Unit {0})
learn_info pair info = modify (λ b. record b { infos = insert pair info b.infos })

abbrev pub next_placing : List (Option Placing) → Option Placing × List (Option Placing)
next_placing [] = (some unknown, [])
next_placing (a ∷ rest) = (a, rest)

abbrev pub next_looking : List Looking → Looking × List Looking
next_looking [] = (lookup_failed, [])
next_looking (a ∷ rest) = (a, rest)

abbrev pub next_cancelling : List Cancelling → Cancelling × List Cancelling
next_cancelling [] = (cancel_failed, [])
next_cancelling (a ∷ rest) = (a, rest)

abbrev pub known_side : Side → Bool
known_side other = false
known_side _ = true

abbrev pub requested : Exchange → Order → Exchange
requested client o = record client {
  placing = (next_placing client.placing).1;
  sent = client.sent ++ o.client_order_id ∷ [];
}

abbrev no_base : Option Text → Bool
no_base none = true
no_base (some base) = false

-- The ids that the executor makes pass the check of the id.
abbrev pub is_refused : Order → Bool
is_refused o =
    if known_side o.side
    then leb_ℤ o.qty (pos 0) || leb_ℤ o.price (pos 0) || no_base (base_asset (codes o.pair))
    else true

-- `place_limit`, which sends one request (private_client.py repeats none that places an order): it raises the ValueError of the checks before the request, or as the exchange says,
-- after it.
unfoldable pub place_limit : Order → Action Placing
place_limit o b = if is_refused o then fail b else (
  (next_placing b.client.placing).0,
  record b {
    client = record b.client {
      placing = (next_placing b.client.placing).1;
      sent = b.client.sent ++ o.client_order_id ∷ [];
    };
  },
)

unfoldable pub get_order_by_coid : OrderId → Action Looking
get_order_by_coid coid b = (
  some (next_looking b.client.looking).0,
  record b { client = record b.client { looking = (next_looking b.client.looking).1 } },
)

-- The request names the exchange's id of the row; the record is of the agent's.
unfoldable pub cancel : Order → Action Cancelling
cancel o b = (
  some (next_cancelling b.client.cancelling).0,
  record b {
    client = record b.client {
      cancelling = (next_cancelling b.client.cancelling).1;
      cancelled = b.client.cancelled ++ o.client_order_id ∷ [];
    };
  },
)
