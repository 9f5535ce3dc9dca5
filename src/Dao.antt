-- ===== src/Dao.antt =====
-- server/repository/dao: one module for each file, as reads and writes of the tables.
pub mod ProjectBudgets
pub mod IssueBudgets
pub mod IssueRequests
pub mod Rewards
pub mod Finance
pub mod Templates
pub mod Projects
