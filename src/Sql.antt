-- ===== src/Sql.antt =====
-- mymuduo/sql: the pool of database connections, and the queries of the program.
pub mod Pool
pub mod Operation
mod Tests
