-- ===== src/Lib.antt =====
-- Crypto Market Advisor: an advisory backend in Go that analyses crypto markets, asks a language model for
-- a recommendation, limits it by a deterministic risk engine, evaluates later what the market did, keeps
-- the books of the positions that a user records by hand, and replays history to test the advice.
--
-- What is modelled, and where:
--
-- Base: Booleans, lists, integers over the native numbers, and the names that all modules share.
-- Numbers: the two number types that the program uses and does not implement. Decimal has the operations
--   of decimal.Decimal (github.com/shopspring/decimal), Float those of float64; both are instance arguments,
--   so that every definition runs with any implementation. Laws, Order, Sums and Rounding state what the
--   program relies on of them, as records that a theorem takes as an argument. Whole (whole numbers as
--   decimals) and Fixed (hundredths as floats) are instances that meet the laws.
-- Domain: backend/internal/domain, the enumerations with their strings, timeframes, and the records of
--   positions, candles and recommendations. A uuid is a number, since it is only compared; a time is its
--   nanoseconds since the year 1.
-- Pnl: backend/internal/pnl/pnl.go. Compute, ComputeClose, computeFee, OpenFee, DeriveSize and Classify
--   are compute, compute_close, compute_fee, open_fee, derive_size and classify.
-- Positions: backend/internal/positions/service.go and backend/internal/repository/positions.go. Store has
--   the tables and the session; a statement is a function on the tables, and the session says of each
--   statement whether it fails, so that a theorem on all sessions covers every pattern of failures. A
--   transaction restores the tables on an error of its body or of COMMIT. Repository and Queries have the
--   statements, Service has Open, Close has Close, UpdatePlan, AddFee and AddFunding, View has buildView. A
--   NUMERIC column is a function on decimals; a TIMESTAMPTZ column keeps a time exactly in the model, where
--   the database drops what is below a microsecond. Each request is one step; two requests that interleave
--   between their statements are not modelled.
-- Outcomes: backend/internal/recommendations/outcomes.go. Hits is detectHits with resolveWithFiner and
--   firstTouched, Prices is priceAfter and excursions, Evaluate is evaluateOne and EvaluateOutcomes. The
--   candles that a query returns are arguments, and so is the time of the evaluation, which is one for all
--   recommendations of a run.
-- Risk: backend/internal/risk/engine.go. Input has the records, Readings what is read off a snapshot,
--   Leverage one definition for each numbered constraint of Evaluate, Sizing the clamping, the allocation
--   and the risk level, and Engine is Evaluate. The policy is the one that is active during the call. The
--   notes are kept as what they format, not as text.
-- Llm: backend/internal/llm/validate.go, of which the checks of numbers (Numbers), of target and stop
--   levels (Targets) and of the entry zone (Entry). A check returns what it found and the problems that it
--   adds, which are kept as what they format; strings.TrimSpace is an argument. Inference and Service are
--   backend/internal/llm/service.go: the budget of the context, and Analyze with the cache, the one repair
--   and the stored records. Languages is multilingualProblem; Ends and Narratives say, apart from the code,
--   how an inference ends and what an answer has in a language. The client's answers, the cache, the texts
--   of the prompt, the estimate of tokens and the parts of the validation are arguments of it.
-- Backtest: backend/internal/backtesting/engine.go and metrics.go, the replay of one symbol. Params has
--   the parameters of a run, its trades and openTrade; Levels the levels of a trade (priceTouched, stopFill,
--   liquidationPrice, trailStop, ladderTargets); State simState with the equity and the counters; Exits
--   applyFunding, executeExit, executeTouchedTargets, finalizeTrade and forceClose; Update updateOpenTrade;
--   Entries atrPlan, riskPlan, openTradeAt and the resting entries; Visible visibleSeriesAt and
--   marketContextAt, with sort.Search; Loop simulateSeries; Signals technicalSignal, randomEntrySignal and
--   llmSignal; Metrics the summary of a run. Account, Rounds, Steps and Kept are what the theorems share:
--   the balance of a trade, one round of the loop, and what every candle keeps. The verdict of the
--   strategies, the answer of the model, the average ranges, the numbers of the random source, and whether
--   the context is done at a bar are arguments; ids, votes, logging and the progress of a run are left out.
-- Scheduler: backend/internal/scheduler/scheduler.go. Guard has the state under the mutex and one function
--   for each section that holds it: the two of RunCycle, that of AnalyzeNow, setNext and Observability.
--   System interleaves these sections as steps, Queue has prioritise and the body of RunCycle, and
--   untilNextBoundary is in Guard too. The semaphore of golang.org/x/sync is present only as the answers of
--   its Acquire, and the clock as the times that it gives.
-- Tests: runs on concrete data.
--
-- Loops are structural recursion on a list, with two exceptions that count rounds: funding_rounds of
-- Backtest.Exits gets as many rounds as settlements can be due, and search_from of Backtest.Visible more
-- than the list has elements, which halving cannot use up.
--
-- Not modelled: the clients of the exchanges, of the news feeds and of the model, the HTTP API, the
-- settings, the indicators and the analyses over them, the reading of a backtest's series and the status
-- of its run in the database, and the frontend.
pub mod Base
pub mod Numbers
pub mod Domain
pub mod Pnl
pub mod Positions
pub mod Outcomes
pub mod Risk
pub mod Llm
pub mod Backtest
pub mod Scheduler
pub mod Tests
