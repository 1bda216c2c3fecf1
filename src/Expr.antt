-- ===== src/Expr.antt =====
-- crates/konflux-substrate/src/expr.rs: the evaluator of conditions. Floats are an argument: their
-- type and the operations that the evaluator calls. So is the debug format of a value.
-- A `neg_int n` of a JSON number is -(n + 1).
pub mod Values
pub mod Basic
pub mod Eval
pub mod Parts
pub mod Total
pub mod Fuel
pub mod Laws
pub mod Conditions
mod Tests
