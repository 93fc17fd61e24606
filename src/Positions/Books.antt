-- ===== src/Positions/Books.antt =====
-- Every position of the tables balances with its fills, whatever the service does.
pub mod Rows
pub mod Changes
pub mod Ends
pub mod Outcomes
pub mod Steps
pub mod Reach
