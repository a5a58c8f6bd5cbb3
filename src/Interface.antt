-- ===== src/Interface.antt =====
-- The C interface: cpp/src/linear_programming/cuopt_c.cpp but for its functions on parameters, and
-- the problem that it fills in, optimization_problem_t of
-- cpp/src/linear_programming/optimization_problem.cu.
mod Problem
mod Create
mod Getters
mod Solution
mod Given
mod Types
mod ReadBack
mod Tests
pub use Problem.*
pub use Create.*
pub use Getters.*
pub use Solution.*
