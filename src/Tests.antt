-- ===== src/Tests.antt =====
-- Runs of the definitions on concrete data, with whole numbers for the decimals and hundredths for float64.
mod Data
mod Pnl
mod Positions
mod Outcomes
mod Risk
mod Llm
mod Replay
mod Schedule
mod Inference
