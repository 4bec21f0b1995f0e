-- ===== src/Store.antt =====
-- The database that the services share, and the transactions over it: the tables as lists of rows,
-- Prisma's queries as functions on them, and the exceptions of src/types/exceptions.ts.
mod Monad
mod Tables
pub mod Keys
pub mod Moves
pub mod Commits
pub use Monad.*
unfoldable pub use Tables.*
