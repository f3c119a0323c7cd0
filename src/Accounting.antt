-- ===== src/Accounting.antt =====
-- Acquire/Accounting: amounts, transactions, balances, accounts.
pub mod Formats
pub mod Transaction
pub mod TransactionInfo
pub mod Balance
pub mod History
pub mod Notes
pub mod Postings
pub mod Ledger
pub mod Accounts
pub mod CashCheque
pub mod Receipt
mod Tests
