-- ===== src/Store.antt =====
-- What the services keep and exchange: JavaScript values and rows, the filters they hand to Prisma,
-- the database as they see it, and the actions by which a handler reads and writes it.
pub mod Value
pub mod Query
pub mod Db
pub mod Action
pub mod Effects
pub mod Links
pub mod Outcome
