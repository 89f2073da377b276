-- ===== src/Lib.antt =====
-- The order layer of the trading engine (src/quant/execution): what an order is, how it moves through
-- its life, how a repeated submission is caught, the simulated broker that fills it, what checks it before
-- and stops it, and how a parent order is sliced and accounted for.
--
-- Parts, and the files of the repository that they model:
-- - Prelude: what the language gives. Native numbers, `str` with `strip`, `dict` in insertion order and
--   `set` as lists (Prelude.Dict).
-- - Float: `float` as an interface of operations (Float.Interface) with the rules of IEEE 754 that the
--   theorems assume (`IsOrdered`). Float.Decimals gives decimals that meet the rules, for the tests.
-- - Orders: quant/execution/models.py. Orders.Types has the enums, exceptions, Order and
--   ExecutionReport; Orders.Validate has `__post_init__` of both, as `new_order` and `new_report` over
--   arguments of any Python type. An exception is the `err` of a Result.
-- - Fsm: quant/execution/fsm.py. `can_transition`, `transition` and `apply_execution_report` of
--   OrderStateMachine; the order that a method mutates comes back beside its result, also after an
--   exception.
-- - Idempotency: quant/execution/idempotency.py. IdempotencyRouter as the record Router, a function for
--   each method; the registry of active orders holds values of any type. The code keeps used tokens by
--   count alone and never reads `ttl_seconds`, which is a field here as well that no operation reads.
-- - Action: methods that mutate an object and may raise, as functions of its state that return a result
--   beside the state they leave, also when they raise.
-- - Gateway: quant/execution/gateway.py. PaperExecutionGateway as the record Gateway. Orders are objects
--   that the gateway, its router and its caller share: they stand in a store, and the registries hold
--   their places. Gateway.Connection has the constructor, the session and the queries, Gateway.Submit
--   `submit_order` step by step, Gateway.Cancel `cancel_order` and Gateway.Matching `set_market_price`.
--   What other tasks do while a call sleeps is an argument, `other`; between two sleeps a call is not
--   interrupted, since the event loop runs one task. `World` gives what the clock and `uuid4` return.
--   Gateway.Account states the cash and the positions as a ledger of the execution reports.
-- - TaxLots: quant/execution/tax_lot.py. TaxLotEngine as the record TaxLotEngine; a lot that the engine
--   mutates is named by its place in the list of its symbol. TaxLots.Order has `sorted`, TaxLots.Matching
--   the loop over the lots, TaxLots.Verify the check at the end and TaxLots.Allocate `allocate_fill`. Times
--   are microseconds. The built-in `sum` of floats is an argument, since its rounding depends on the
--   version of the language, and what `uuid4` returns is one.
-- - Audit: quant/execution/audit.py. OrderAuditLogger with its queue, the table that an open connection
--   sees and the rows that are committed to the file. Whether and where a write raises is an argument, and
--   so is what other tasks do while `stop` waits for its worker. Audit.Operations has the methods. Opening
--   and committing are taken to succeed.
-- - Risk: quant/execution/risk.py. Risk.Limits has RiskLimits and the checks of scalars, Risk.State the
--   valuation, drawdown, leverage and free margin of PortfolioRiskState, Risk.Updates its prices and
--   fills, and Risk.Firewall `validate_order`; Risk.Firewall.Projection describes its figures apart from
--   the code. A set of symbols is listed in an order that is an
--   argument. A negated float is nought less it, which differs in the sign of nought alone.
-- - KillSwitch: quant/execution/kill_switch.py. EmergencyKillSwitch as the record KillSwitch, which
--   stands beside the world that its gateways, hooks and listeners act on. KillSwitch.Types has the
--   administration, KillSwitch.Registry the registries, KillSwitch.Sweep what is done to the gateways and
--   KillSwitch.Panic `trigger_panic`. Venue is the ExecutionGateway protocol; KillSwitch.Paper makes the
--   paper gateway one. A call that outlasts its timeout is one that raises, the tasks of a `gather` take
--   their turns in order, and while a panic runs other tasks may change the state of the switch, but not
--   its registries.
-- - Parent: quant/execution/parent_order.py. Parent.Fills has ChildFillRecord, ParentOrder and its
--   operations, Parent.Shortfall the ImplementationShortfallReport and its computation, Parent.Books and
--   Parent.Session what holds over any calls.
-- - Schedule: quant/execution/algorithms.py. Schedule.Slices has ScheduledSlice, Schedule.Vwap the
--   VolumeAdaptiveVWAPScheduler, Schedule.Forecast and Schedule.Capped its forecasts and its cap. The TWAP
--   scheduler and the Almgren-Chriss trajectory, which computes with numpy, are left out.
-- - Heartbeat: quant/execution/heartbeat.py. HeartbeatWatchdog as the record Watchdog, beside the world
--   that its listeners act on. Heartbeat.Types has the configuration and the constructor,
--   Heartbeat.Listeners the registries, Heartbeat.Watchdog the other methods, Heartbeat.Sequence and
--   Heartbeat.Silence what holds over any calls.
--
-- The state machine reads and writes the orders of Orders.Types, and the router keeps references to
-- them; the gateway drives both, and its reports are what the audit logger takes. Time and the UUIDv5
-- hash are arguments. Two functions need fuel: the printing of an `int`, which divides by ten and so
-- ends within as many rounds as the number is large, and the chunks of a batch, of which there are no
-- more than reports (Audit.Batches.insert_batches_lem).
-- Not modelled: messages of exceptions, logging, and the checks that an argument is an instance of the
-- class that its annotation names, where the model has the argument in that type.
pub mod Prelude
pub mod Float
pub mod Orders
pub mod Fsm
pub mod Idempotency
pub mod Action
pub mod Gateway
pub mod TaxLots
pub mod Audit
pub mod Parent
pub mod Schedule
pub mod Risk
pub mod KillSwitch
pub mod Heartbeat
