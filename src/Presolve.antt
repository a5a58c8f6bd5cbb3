-- ===== src/Presolve.antt =====
-- cpp/src/dual_simplex/presolve.cpp: a problem in the user's form is converted to the standard form
-- of the simplex method, empty rows and columns are removed, and solutions are carried over.
-- `Problem` has the records, the other modules the operations.
mod Tests
pub mod Problem
pub mod Remove
pub mod Compact
pub mod KeptRows
pub mod EmptyRows
pub mod KeptCols
pub mod Marking
pub mod Uncrush
pub mod Partition
pub mod Objective
pub mod Negate
pub mod Turn
pub mod Greater
pub mod Grow
pub mod Slacks
pub mod Artificial
pub mod Less
pub mod Activity
pub mod EmptyCols
pub mod Convert
pub mod Crush
