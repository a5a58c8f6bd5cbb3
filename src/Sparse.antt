-- ===== src/Sparse.antt =====
-- cpp/src/dual_simplex/sparse_matrix.hpp and sparse_matrix.cpp: compressed sparse matrices.
-- `Matrix` has the two layouts and what all operations share, the other modules the operations.
pub mod Matrix
pub mod Convert
mod Tests
mod Edits
mod Products
pub mod Bucket
pub mod Sums
pub mod Place
pub mod Layout
pub mod Group
pub mod Build
pub mod Permute
pub mod Remove
pub mod Product
pub mod Algebra
pub mod Vector
pub mod Norm
