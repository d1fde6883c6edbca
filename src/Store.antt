-- ===== src/Store.antt =====
-- The database of prisma/schema.prisma as one value, what surrounds the program, and the monad in
-- which the services run.
pub mod Schema
pub mod World
pub mod Monad
pub mod Frame
pub mod Ends
pub mod Quiet
pub mod Sample
