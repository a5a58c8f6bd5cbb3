-- ===== src/Settings.antt =====
-- The parameters of the solvers: cpp/src/math_optimization/solver_settings.cu, its header, and
-- `parameter_info_t` of cpp/include/cuopt/linear_programming/utilities/internals.hpp. The fields of
-- the settings that the entries of one table point to are a list, and a pointer is an index of it,
-- so two entries can share a field. std::stoi, std::stod and std::to_string on numbers are
-- arguments.
mod Entries
mod Laws
mod Parameter
mod Api
mod FromString
mod Integer
mod Tests
pub use Entries.*
pub use Api.*
