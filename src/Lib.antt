-- ===== src/Lib.antt =====
-- Verification library of ShamarX, a trading back end in TypeScript (NestJS).
--
-- The program tests and runs trading strategies. The strategy that its live engine runs trades swept
-- levels: detectors look for a bar that takes out a recent high or low and closes back inside, the
-- backtest engine turns such a setup into positions on the bars of fifteen minutes, the position simulator
-- manages and closes the positions of a backtest; the risk manager decides whether an entry is
-- allowed and how large it is, and books every closed trade; the simulated broker replays the live
-- strategy over stored candles with the same position management. The live orchestrator evaluates each
-- close of fifteen minutes, keeps its state across restarts and fires a signal; once the signal has
-- been placed, the position manager moves the stops at the broker, and the position monitor closes the
-- trades that the broker no longer reports and tells the orchestrator. The circuit breaker stops the
-- live engine after a loss; invites and refresh tokens let people in.
--
-- Which file models which part:
--
--   Engine                src/backtest/engine/types.ts: candles, positions, trades, configuration
--   Engine/Instrument     src/backtest/engine/instrument-config.ts (getInstrumentConfig) and
--                         spread-model.ts (getSpread)
--   Position/Manage       src/backtest/engine/position-simulator.ts: updatePositionManagement,
--                         computeTrailDistance; theorems in Manage/Stop and Manage/Frame
--   Position/Close        the same file: checkPositionExit, forceClosePosition, calculatePnl;
--                         theorems in Close/Reason
--   Calendar              src/backtest/engine/risk-manager.ts: addTradingDays, getISOWeek and the
--                         dates; theorems in Calendar/TradingDays and Calendar/Weeks
--   Risk                  the same file: the state of RiskManager, its constructor and helpers
--   Risk/Guards           canTrade; theorems in Guards/Clear and Guards/Scope
--   Risk/Record           recordTrade; theorems in Record/Booked, Record/Coherent, Record/Pauses
--   Risk/Lots             calculateLotSize and its multipliers; theorem in Lots/Cap
--   Risk/Snapshot         snapshot and restore
--   Broker                src/backtest/live-replay/simulated-broker.ts: the state, calcPnl, close,
--                         with the presets of src/backtest/engine/smc/trail-config.ts and the signal
--                         of src/strategy/live/smc-live-evaluator.ts
--   Broker/Orders         placeOrder, fillAt, processPendingLimits; theorem in Orders/Expiry
--   Broker/Candle         processCandle, closeAllForSymbol; lemmas in Candle/Ledger, theorems in
--                         Candle/Books and Candle/Exits
--   RefreshToken          src/auth/refresh-token.service.ts over the table of
--                         libs/prisma/schema.prisma; theorems in RefreshToken/Reuse and Races
--   CircuitBreaker        src/strategy/live/circuit-breaker.service.ts; theorem in Latch
--   Invite                src/invites/invite.service.ts; theorems in Invite/Single
--   Performance           src/backtest/engine/performance-tracker.ts: the windows, computeStats and
--                         the confidence; theorems in Performance/Window
--   Smc                   src/backtest/engine/smc/types.ts and the indicator series of engine/types.ts
--   Smc/Pairs             src/backtest/engine/smc/pairs: the configurations and getSmcPairConfig
--   Smc/Index             indexForTime of src/backtest/engine/smc/smc-engine.ts, which
--                         sweep-detector.ts and strategy-evaluator.ts repeat; theorem in Index/Last
--   Smc/Swing             src/backtest/engine/smc/sweep-detector.ts: the searches for swings; theorem
--                         in Swing/Recent
--   Smc/Anchor            src/backtest/engine/smc/anchor-levels.ts; theorem in Anchor/Windows
--   Smc/Sweep             src/backtest/engine/smc/sweep-detector.ts: isContinuationSafe, detectSweep,
--                         detectAnchorSweep; theorem in Sweep/Shape,
--                         lemmas in Sweep/Taken
--   Smc/Scan              the loops that the next two share; lemmas in Scan/Newest
--   Smc/Fvg               src/backtest/engine/smc/fvg-detector.ts; theorem in Fvg/Open
--   Smc/OrderBlock        src/backtest/engine/smc/order-block-detector.ts; theorem in
--                         OrderBlock/Impulse
--   Smc/Bos               src/backtest/engine/smc/bos-detector.ts; theorems in Bos/Break
--   Smc/Entry             src/backtest/engine/smc/smc-engine.ts: what becomes of a pending setup, and
--                         the positions it opens; lemmas in Entry/Legs
--   Smc/Engine            the same file: the loop of runSmcBacktest, and the whole of it in
--                         Engine/Backtest; theorems in Engine/Ledger, Engine/Stacking, Engine/Total
--   Indicators            src/backtest/engine/indicator-calculator.ts, getD1Bias of
--                         strategy-evaluator.ts and d1AdxAt of smc-engine.ts; theorems in
--                         Indicators/Aligned
--   News                  src/backtest/engine/news-calendar.ts; the search in News/Near, the order of
--                         the calendar and the theorem in News/Sorted
--   Metrics               src/backtest/engine/metrics-calculator.ts; theorem in Metrics/Drawdown,
--                         its reading of a drawdown in Metrics/Peak
--   LiveTrade             src/strategy/live/pending-entry-monitor.service.ts and
--                         exit-reconciliation.service.ts: the background services over the table of
--                         trades; theorem in LiveTrade/Final
--   Orchestrator          src/strategy/live/live-smc-orchestrator.ts: the state, recordEntry,
--                         recordExit, telemetry; sets of sweeps in Sets and Actioned
--   Orchestrator/Detect   evaluate: the detection on H1 bars and the expiry; theorem in Detect/Catchup
--   Orchestrator/Gates    evaluate: the structure gates of a setup
--   Orchestrator/Signal   evaluate: what becomes of a pending setup, and the signal; lemmas in
--                         Signal/Protective
--   Orchestrator/Evaluate evaluate: the gates of a bar, the loop and the whole method; theorem in
--                         Evaluate/Fired
--   Orchestrator/Store    serialize, restore and the keys of Redis; theorem in Store/Roundtrip
--   Orchestrator/Viewed   what an evaluation reads of the market, for the statements about signals
--   Orchestrator/Once     sequences of operations and restarts; lemmas in Orchestrator/Update
--   LiveEvaluator         src/strategy/live/smc-live-evaluator.ts; theorem in LiveEvaluator/Fired
--   LiveManager           src/strategy/live/live-position-manager.service.ts; theorems in
--                         LiveManager/Managed, lemmas in LiveManager/Levels, its accounts in
--                         LiveManager/Accounts
--   PositionMonitor       src/strategy/live/position-monitor.service.ts; theorems in
--                         PositionMonitor/Absence and /Sister, lemmas in /Reported
--   Double                the JavaScript number as an interface with the laws of IEEE 754 that the
--                         proofs use, and Double/Fixed, an instance with concrete values
--   Examples              the theorems at concrete inputs
--   Prelude               shared tests, lists, options, and maps with text keys
--
-- State is passed explicitly: an operation that changes an object returns the new one, with the
-- answer beside it. A method that throws returns Option or a result. Field and function names are
-- those of the code in snake_case. A time is a number of milliseconds and a date a number of days
-- since the epoch, in UTC; the code keeps both as ISO strings, which sort in the same order. Counters
-- are natural numbers; a price, a lot or an amount is a number of the interface Double, so that
-- rounding is left to IEEE 754 and no law of exact arithmetic is used.
--
-- Loops over lists are structural. The loop of addTradingDays runs on fuel, three steps for each day,
-- since at most two weekend days come before a weekday; that it suffices is proved. The walk over the
-- years in getISOWeek has one step for each day since the epoch and at most one year is left behind
-- in each. The binary searches run on one step more than there are entries, which is proved to be
-- enough. A loop that counts an index up or down is a recursion on how many steps are left.
--
-- The package technicalindicators is a parameter, a record of its functions; that the engine returns
-- is proved for a package that gives no more values than it is given.
--
-- Requests that interleave are sequences of steps: RefreshToken splits a rotation into the read
-- (check) and the transaction (commit), and the database runs each of them as one step.
--
-- Not modelled: the evaluators of the older strategies and their loop, the tracker of
-- runSmcBacktest, which is only written there, the service that subscribes the live engine to candles
-- and places its orders, with the registry of its orchestrators, the weekly counts of trades, the
-- journal, market data, administration, mail, and the Python services: these query a database, call
-- other services, or stand outside the paths modelled here. A cursor past the end of its candles is
-- a throw. Square roots and squares are parameters.
-- Hashes, random ids, JSON, the clock and the queries of the database are arguments. The
-- annotation of a signal is passed on unread by the simulated broker.
pub mod Prelude
pub mod Double
pub mod Engine
pub mod Position
pub mod Calendar
pub mod Risk
pub mod Broker
pub mod RefreshToken
pub mod CircuitBreaker
pub mod Invite
pub mod Performance
pub mod Smc
pub mod Indicators
pub mod News
pub mod Metrics
pub mod LiveEvaluator
pub mod LiveManager
pub mod LiveTrade
pub mod Orchestrator
pub mod PositionMonitor
pub mod Examples
