-- ===== src/Engine/Cycle.antt =====
-- `run_cycle` of agent/engine.py.
use tio_indodax.Prelude.{
  ℕ, String, Bool, false, ◌&&◌, ◌||◌, Option, none, some, List, [], ◌∷◌, ◌++◌, some_of, every,
  if◌then◌else◌, pos, ltb_ℤ, str_eq,
}
use tio_indodax.Decimal.{Decimal}
use tio_indodax.Dict.{Dict, lookup, get_or, contains, keys}
use tio_indodax.Exchange.Models.{is_sell}
use tio_indodax.Storage.{Database, record_decision}
use tio_indodax.Portfolio.{Position, Portfolio, raise_stop}
use tio_indodax.Risk.Types.{
  RiskManager, RiskContext, MarketView, TradeProposal, RiskDecision, analyst_veto, approved, vetoed,
}
use tio_indodax.Risk.Account.{check_account}
use tio_indodax.Risk.Evaluate.{evaluate}
use tio_indodax.Strategy.{
  Strategy, Entry, proposed, declined, propose_entry, propose_exit, trail_stop,
}
use tio_indodax.Calls.{Call, return, fail, ◌>>=◌, ◌>>◌, read, modify}
use tio_indodax.Runner.Days.{Books}
use tio_indodax.Engine.Context.{Market, CycleInputs, marks, build_context, after_approval}

-- What a cycle works on.
pub record Run : Type 0 where
  pub db : Database
  pub pf : Portfolio
  pub ctx : RiskContext
  pub decisions : List (ℕ × RiskDecision)

-- Where entries come from: the rules of the strategy, with the analyst's vetoes; or the portfolio
-- manager, from the ledger and the pending buys.
pub data Proposer : Type 0 where
  rules : (TradeProposal → Bool) → Proposer
  allocation : (Portfolio → Dict Decimal → List TradeProposal) → Proposer

-- `bar` is the length of a bar of the strategy in microseconds.
pub record DecisionEngine : Type 0 where
  pub strategy : Strategy
  pub bar : ℕ
  pub risk : RiskManager
  pub proposer : Proposer

abbrev pub given : {A : Type 0} → Option A → Call Run A
given none = fail
given (some a) = return a

module _ (e : DecisionEngine) (c : CycleInputs) (markets : Dict Market) where
  -- The context after a decision.
  abbrev pub next_context : RiskDecision → RiskContext → Option RiskContext
  next_context d ctx = if approved d then after_approval e.risk.fees markets d ctx else some ctx

  abbrev pub written : RiskDecision → Run → Run
  written d b =
      let (row, db) = record_decision b.db d c.mode c.now in
      record b { db = db; decisions = b.decisions ++ (row, d) ∷ [] }

  -- `record`
  unfoldable pub record_one : RiskDecision → Call Run (Unit {0})
  record_one d = do
    modify (written d)
    b ← read
    ctx ← given (next_context d b.ctx)
    modify (λ b. record b { ctx = ctx })

  -- The decision of the risk manager is recorded.
  unfoldable pub judge : TradeProposal → MarketView → Call Run (Unit {0})
  judge p view = do b ← read; d ← given (evaluate e.risk p b.ctx view); record_one d

  abbrev pub judge_exit : Market → Option TradeProposal → Call Run (Unit {0})
  judge_exit m none = return tt
  judge_exit m (some p) = judge p m.view

  -- 1) exits first
  unfoldable pub judge_exits : Dict Position → Call Run (Unit {0})
  judge_exits [] = return tt
  judge_exits ((pair, held) ∷ rest) = do
    m ← given (lookup pair markets)
    judge_exit m (propose_exit e.strategy held m.view.info m.view.orderbook e.bar c.now)
    judge_exits rest

  abbrev pub sells : String → ℕ × RiskDecision → Bool
  sells pair (row, d) = approved d && (is_sell d.proposal.side && str_eq d.proposal.pair pair)

  abbrev pub raised_to : String → Option Decimal → Call Run (Unit {0})
  raised_to pair none = return tt
  raised_to pair (some new) = do
    b ← read
    moved ← given (raise_stop b.pf pair new)
    modify (λ b. record b { pf = moved.1 })

  -- 1b) trail the stops of the positions that stay
  unfoldable pub trail_stops : Dict Position → Call Run (Unit {0})
  trail_stops [] = return tt
  trail_stops ((pair, held) ∷ rest) = do
    b ← read
    (if some_of (sells pair) b.decisions then return tt else (do
      m ← given (lookup pair markets)
      raised_to pair (trail_stop e.strategy held m.features m.view.info)))
    trail_stops rest

  abbrev pub is_about : String → ℕ × RiskDecision → Bool
  is_about pair (row, d) = str_eq d.proposal.pair pair

  -- The pair is held, has a buy pending, or was decided on.
  abbrev pub is_taken : String → Run → Bool
  is_taken pair b =
      contains pair b.pf.positions
      || ltb_ℤ (pos 0) (get_or b.ctx.pending_buy_idr pair (pos 0))
      || some_of (is_about pair) b.decisions

  -- `_llm_veto`
  abbrev pub llm_veto : TradeProposal → RiskDecision
  llm_veto p = vetoed p false false (analyst_veto ∷ [])

  abbrev pub judge_entry : (TradeProposal → Bool) → Market → Entry → Call Run (Unit {0})
  judge_entry vetoes m (declined note) = return tt
  judge_entry vetoes m (proposed p) = if vetoes p then record_one (llm_veto p) else judge p m.view

  abbrev pub entry_of : (TradeProposal → Bool) → String → Option Market → Call Run (Unit {0})
  entry_of vetoes pair none = return tt
  entry_of vetoes pair (some m) = do
    b ← read
    (if is_taken pair b
        then return tt
        else judge_entry vetoes m
            (propose_entry e.strategy pair m.view.info m.view.orderbook m.features))

  -- 2) entries
  unfoldable pub judge_entries : (TradeProposal → Bool) → List String → Call Run (Unit {0})
  judge_entries vetoes [] = return tt
  judge_entries vetoes (pair ∷ rest) = do
    entry_of vetoes pair (lookup pair markets)
    judge_entries vetoes rest

  -- 2a) the allocation of the portfolio manager
  unfoldable pub judge_allocation : List TradeProposal → Call Run (Unit {0})
  judge_allocation [] = return tt
  judge_allocation (p ∷ rest) = do
    b ← read
    (if some_of (is_about p.pair) b.decisions
        then return tt
        else (do m ← given (lookup p.pair markets); judge p m.view))
    judge_allocation rest

  abbrev pub after_exits : Dict Position → Proposer → Call Run (Unit {0})
  after_exits positions (rules vetoes) = do
    trail_stops positions
    judge_entries vetoes e.risk.market.whitelist
  after_exits positions (allocation allocate) = do
    b ← read
    judge_allocation (allocate b.pf b.ctx.pending_buy_idr)

  unfoldable pub decide : Call Run (Unit {0})
  decide = do b ← read; judge_exits b.pf.positions; after_exits b.pf.positions e.proposer

pub record CycleResult : Type 0 where
  pub decisions : List (ℕ × RiskDecision)
  pub trigger_halt : Bool
  pub trigger_daily_stop : Bool

abbrev pub has_price : Dict Decimal → String → Bool
has_price prices pair = contains pair prices

-- The run of `decide` from a context; `none` where it raises.
abbrev pub finished :
    DecisionEngine → RiskContext → Option (Unit {0}) × Run → Option CycleResult × Run
finished e ctx (none, b) = (none, b)
finished e ctx (some _, b) =
    let (halt, daily, why) = check_account e.risk.limits ctx in
    (some (record { decisions = b.decisions; trigger_halt = halt; trigger_daily_stop = daily }), b)

abbrev pub started : Database → Portfolio → RiskContext → Run
started db pf ctx = record { db = db; pf = pf; ctx = ctx; decisions = [] }

-- `run_cycle`: the result with the run that it ends in, and the books; `none` where it raises before
-- there is a context.
unfoldable pub run_cycle :
    DecisionEngine
    → CycleInputs
    → Dict Market
    → Database
    → Books
    → Portfolio
    → Option ((Option CycleResult × Run) × Books)
unfolding decide build_context
run_cycle e c markets db books pf =
    let prices = marks markets in
    if every (has_price prices) (keys pf.positions)
    then (elim (build_context c db books pf prices) [
      | none ↦ none
      | some (ctx, kept) ↦ some (finished e ctx (decide e c markets (started db pf ctx)), kept)
    ])
    else none
