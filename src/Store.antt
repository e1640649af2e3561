-- ===== src/Store.antt =====
-- internal/store: tables with a key. A statement is a function on the list of the rows, in the order of the
-- table; times are seconds, `now` that of the statement.
pub mod Table
pub mod Rows
pub mod Claims
pub mod PlanGate
pub mod Stages
pub mod Safety
pub mod Planning
