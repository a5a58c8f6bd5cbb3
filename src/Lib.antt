-- ===== src/Lib.antt =====
-- The core of cuOpt's dual simplex code (cpp/src/dual_simplex): sparse matrices in compressed
-- columns and rows, the vector operations and triangular solves on them, presolve and scaling,
-- and the search tree and the pseudo costs of branch and bound; and the C interface with the
-- problem and the parameters that it fills in.
--
-- Parts, and the files that model them:
-- - Prelude: names of the libraries, vectors as lists over the native numbers (reads past the
--   end give a default, writes past it change nothing), `for` loops as folds over an index
--   range, marks and the pigeonhole principle (Marks), chains of steps that may have no result
--   (Options), and the interface `Num` of the value type f_t.
-- - Sparse/Matrix, Sparse/Convert: csc_matrix_t and csr_matrix_t (cpp/src/dual_simplex/
--   sparse_matrix.hpp), `reallocate`, `cumulative_sum`, `coo_to_csc`, `to_compressed_row`,
--   `to_compressed_col`, `load_a_column` and `transpose` (sparse_matrix.cpp). All conversions
--   are a bucket sort: Sparse/Bucket and Sparse/Place prove it of the counting and placing
--   loops, Sparse/Layout reads the entries of a matrix, Sparse/Group joins them, and
--   Sparse/Convert/* draws the consequences for each conversion.
-- - Sparse/Permute and Sparse/Remove: `permute_rows`, `permute_rows_and_cols`,
--   `remove_columns`, `remove_column`, `remove_rows`, `remove_row`. They write a matrix segment
--   by segment: Sparse/Build is about that loop.
-- - Sparse/Product: `scatter`, `scatter_dense`, `multiply` and `add`. Product/Collect is the
--   list that a run of `scatter` amounts to, Product/Scatter the work on one column,
--   Product/Filled the columns that are finished while the result grows, Product/Column joins
--   these, and Product/Dense compares with the textbook definitions. Sparse/Algebra has
--   coefficients and sums.
-- - Sparse/Norm: `norm1`.
-- - Sparse/Vector: `matrix_vector_multiply` and `matrix_transpose_vector_multiply`;
--   Vector/Accumulate is also about `scatter_dense` and `load_a_column`.
-- - Vectors: `permute_vector`, `inverse_permute_vector`, `inverse_permutation`, the norms,
--   `dot` and the `sparse_dot` of vector_math.cpp and sparse_matrix.cpp.
-- - Triangle: `lower_triangular_solve`, `lower_triangular_transpose_solve`,
--   `upper_triangular_solve` and `upper_triangular_transpose_solve` of triangle_solve.cpp.
--   Triangle/Lower, Triangle/Upper and Triangle/Subtract have the lemmas that they share.
-- - Tree: mip_node_t of mip_node.hpp, with its constructors, `add_children`,
--   `get_variable_bounds`, `is_inactive`, `update_bound` and `set_status`. Tree/Heap is about
--   the links between the nodes, Tree/Closed about their statuses, Tree/Settle, Tree/Climb and
--   Tree/Status about `set_status`, Tree/Grow and Tree/Children about `add_children`, and
--   Tree/Bounds about `get_variable_bounds`.
-- - Presolve: presolve.cpp, with the records of presolve.hpp and user_problem.hpp (Problem).
--   Presolve/Remove has the removal of empty rows and columns and of fixed variables, Convert
--   the conversion of the user's problem, Crush `presolve` and the functions that carry
--   solutions over. KeptRows and EmptyRows are about `remove_rows`; Marking, KeptCols and
--   EmptyCols about `remove_empty_cols`; Uncrush, Partition and Objective about
--   `uncrush_solution` and `presolve`; Negate, Turn and Greater about
--   `convert_greater_to_less`; Grow and Slacks about the columns that Artificial, Less and
--   Activity are about. Compact has what the copying loops share.
-- - Scaling: `column_scaling` and `unscale_solution` of scaling.cpp. Columns is about the loops
--   (Vectors/Update has what they share), Unscale about the two functions together.
-- - PseudoCosts: pseudo_costs_t of pseudo_costs.hpp and pseudo_costs.cpp, and
--   `get_partitioning`. Selection is about `variable_selection`, Partition about
--   `get_partitioning`.
-- - Settings: `set_parameter`, `set_parameter_from_string` and `get_parameter` of
--   cpp/src/math_optimization/solver_settings.cu (Settings/Entries) and the functions of
--   cpp/src/linear_programming/cuopt_c.cpp on parameters (Settings/Api). Laws and Parameter are
--   about the loops over a table, Integer and FromString about the C functions.
-- - Interface: the problem of cpp/src/linear_programming/optimization_problem.cu
--   (Interface/Problem) and the other functions of cuopt_c.cpp: creating a problem (Create),
--   reading it (Getters), solving it and reading the solution (Solution). Given, Types and
--   ReadBack are about a problem that is created and read.
-- - Sparse/Tests, Sparse/Edits, Sparse/Products, Vectors/Tests, Triangle/Tests, Tree/Tests,
--   Presolve/Tests, Settings/Tests, Interface/Tests, Scaling/Tests, PseudoCosts/Tests: runs on
--   small inputs.
--
-- Conventions. An object that a function changes is an argument and a result. Indices (i_t) are
-- natural numbers: the code indexes vectors with them, and a matrix whose sizes fit in i_t
-- never leaves its range in the modelled functions, but for the space that `multiply` and `add`
-- ask for. Values (f_t) are an arbitrary type with the operations of `Num`, of which no law is
-- used but where a result says that it is about values with laws (`IsSemiring`, `IsField` or
-- `IsExact`, and for orders `IsStrict`): the other results hold for floating-point numbers too.
-- Loops over an index range are structural recursion on the range. `merge`, the loop of
-- `sparse_dot`, has as fuel the number of the entries of both vectors, and the walks to the
-- root of the tree the depth of the node; with the fuel used up they have no result, and the
-- results say that they have one. Reads and writes out of range, undefined in C++, have a value
-- here; the hypotheses `IsLayout` and `IsSized` of the results say what the code asserts or
-- takes for granted. In the tree a pointer is a place in a heap of nodes or null, and a read
-- through a null pointer has no result; std::floor, std::ceil, std::abs and std::sqrt are
-- parameters, as are std::stoi and std::stod. A C++ exception is a value beside the state that
-- the throwing function leaves behind. In the C interface a pointer that may be null is an
-- option, and the two solvers are parameters that do not change the problem; sizes and offsets
-- are natural numbers, where a negative one makes the code throw an exception that it does not
-- catch, an array that is shorter than its size is padded, where the code reads past its end,
-- and memory can always be had. The stack that `set_status` returns has its last node first.
--
-- Not modelled: printing, reading MPS files, the C strings that the interface writes, the
-- tables that the settings start with, strong branching, and the other parts of the solver
-- (factorisation, the sparse triangular solves, singletons, the simplex phases, the search loop
-- of branch and bound, the CUDA solvers for LP, MIP and routing). Of the tree, the removal of
-- fathomed nodes is not modelled, and of presolve the search for dependent rows, which a
-- constant turns off.
pub mod Prelude
pub mod Sparse
pub mod Vectors
pub mod Tree
pub mod Triangle
pub mod Presolve
pub mod Scaling
pub mod PseudoCosts
pub mod Settings
pub mod Interface
