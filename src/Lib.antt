-- ===== src/Lib.antt =====
-- The verification library of shrap_firm, a trading firm made of agents: research proposes
-- strategies and moves them through a registry, the strategy runner turns them into intents, the
-- risk gates approve, scale down or veto each intent, one execution agent for each broker account
-- submits what is approved, and operations watches health, market phases, switches and the books.
-- The agents meet on event streams. The modules follow that path; paths are from the root of the
-- repository.
--
--   * Prelude: Boolean tests, lists, text (Python's str as code points; strip, upper and lower on
--     ASCII), dict in insertion order, and Double, an interface for Python's float without NaN: a
--     theorem that needs the order of floats asks for `IsOrdered`, and one that needs a law of
--     their arithmetic names it among its hypotheses.
--   * Registry: src/shrap/research/strategy_registry.py. Status is the state machine, Table the rows
--     and the SQL statements over them, Operations the calls (register, transition, assign_account,
--     set_regime_gate, the lineage backfill and lineage), Histories any sequence of calls: each
--     is a transaction, so concurrent writers are such a sequence.
--   * PreTrade: src/shrap/risk_compliance. Policy is pre_trade.py, Tier3 tier3_membership.py,
--     RateLimit rate_limit.py over the interface RateLimit.Redis, and Pipeline composes them as
--     process_intent_event of pre_trade_checker_agent.py does; the Risk Officer's assessment is a
--     function of the quantity that it is asked about.
--   * Execution: src/shrap/trading_floor/execution_agent.py. Errors and Orders are the classification
--     of exceptions, route_for_account and build_paper_order; Submission is process_risk_event and
--     the loop of poll_once over the interface Services, whose calls change a world and may raise;
--     Delivery and Passes are what this does to the broker's book; Pending is _track_if_pending and
--     repoll_pending_once.
--   * Risk: src/shrap/risk_compliance/risk_officer. Switches is switches.py, Monitor monitor.py, Exits
--     exits.py, Exposure and Freshness the book of exposure.py, Limits limits.py, Sizing sizing.py.
--     Union and Clusters are clusters.py: the union-find with its two loops, and the clusters. Gate is
--     check_portfolio of gate.py over its closure violation_at, Breaches what that closure measures.
--     Officer is RiskOfficer.assess of officer.py, which composes them over what the stores answer, and
--     Sweep is RiskOfficer.sweep.
--   * Reconcile: src/shrap/agents/operations/reconciliation_agent. Compare is records.py, Tracker
--     discrepancy_state.py, Clean what a comparison reports.
--   * Ops: HealthState is src/shrap/agents/operations/health_monitor/state.py, SwitchLatch and
--     MarketPhase are the files of these names in src/shrap/operations.
--   * Events: Envelope is src/shrap/common/envelope.py.
--   * Runner: Cadence and Sizing are cadence.py, and sizing.py with regime_router.py, of
--     src/shrap/research/strategy_runner. Engine and Planner are its engine.py: the order that one
--     ticker comes to, and the plan of a strategy and of a session. Pass is run_pass of
--     src/shrap/agents/research/strategy_runner/runner.py, as the effects that it has in order;
--     Polling is its poll_once over an interface to run_pass, and Closing exit_planner.py with
--     run_exit_pass.
--   * Examples: concrete numbers, a Redis and a broker that keep what is promised of them, and each
--     theorem below at concrete data.
--
-- State is passed explicitly, errors are values, and a loop is structural recursion on its list, or
-- on a count of the source's: the bisection takes its forty steps. The two while loops of the
-- union-find run on fuel, one more than the number of items; more than the height of any item, since
-- the heights are at most the number of items that have a parent. Python's int is the natural numbers
-- where the code keeps it from being negative. Times are seconds or ticks. What stands outside are
-- Redis, the broker, the database driver and the clocks: they are interfaces with the laws that the
-- code relies on, or arguments.
--
-- Not modelled: the statistics of the skill posterior, the code
-- of the strategies, the order store and the consumer groups; and, being input and
-- output or statistics alone, language models, HTTP clients, logging, metrics, and the SQL that only
-- reads.
pub mod Prelude
pub mod Registry
pub mod PreTrade
pub mod Execution
pub mod Risk
pub mod Reconcile
pub mod Ops
pub mod Events
pub mod Runner
pub mod Examples
