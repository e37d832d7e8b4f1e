-- ===== src/Examples.antt =====
-- Concrete inputs: an in-memory database that does what Prisma documents, and the worlds, rows and
-- runs at which the theorems are applied.
pub mod Decimal
pub mod Memory
pub mod Runs
pub mod Dates
pub mod Accounts
pub mod Worlds
pub mod Schemas
pub mod Requests
