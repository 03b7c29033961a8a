-- ===== src/Regression/Results.antt =====
-- regression/custom/support/helpers.h: the results of a benchmark snapshot, the lookup of a result, the
-- list of methods, and the filters by method.
pub mod Filters
pub mod Methods
use rate_throttle.Prelude.{
  ℕ, Bool, true, false, List, [], ◌∷◌, ◌++◌, ite, ◌==◌, if◌then◌else◌, ◌&&◌,
}
use rate_throttle.Text.{Bytes, bytes_dec, contains, null, codes, Result, ok, throw}

-- One entry of a snapshot. The type of doubles is a parameter.
pub record BenchmarkResult (D : Type 0) : Type 0 where
  pub suite : Bytes
  pub operation : Bytes
  pub total_ns : ℕ
  pub iterations : ℕ
  pub ns_per_op : D

module _ {D : Type 0} where
  -- `zero` is the double 0.0
  unfoldable pub get_cns : D → List (BenchmarkResult D) → Bytes → ℕ → D
  get_cns zero [] op iter = zero
  get_cns zero (result ∷ results) op iter =
      let rest = get_cns zero results op iter in
      ite (bytes_dec result.operation op)
        (if result.iterations == iter then result.ns_per_op else rest) rest

  unique_from : List Bytes → List (BenchmarkResult D) → List Bytes
  unique_from operations [] = operations
  unique_from operations (result ∷ results) =
      unique_from
        (if contains operations result.operation
          then operations
          else (operations ++ result.operation ∷ []))
        results

  unfoldable pub unique_operations : List (BenchmarkResult D) → List Bytes
  unfolding unique_from
  unique_operations results = unique_from [] results

  unfoldable pub filter_by_operation : List (BenchmarkResult D) → Bytes → List (BenchmarkResult D)
  filter_by_operation [] operation = []
  filter_by_operation (result ∷ results) operation =
      let rest = filter_by_operation results operation in
      ite (bytes_dec result.operation operation) (result ∷ rest) rest

  unfoldable pub filter_by_operations :
      List (BenchmarkResult D) → List Bytes → List (BenchmarkResult D)
  filter_by_operations [] operations = []
  filter_by_operations (result ∷ results) operations =
      let rest = filter_by_operations results operations in
      if contains operations result.operation then result ∷ rest else rest

  -- Both sides are filtered first; then an empty side throws, the baseline before the current run.
  unfoldable pub apply_method_filter :
      List (BenchmarkResult D)
      → List (BenchmarkResult D)
      → Bytes
      → Bytes
      → Bytes
      → Result (List (BenchmarkResult D) × List (BenchmarkResult D))
  apply_method_filter baseline current method current_label baseline_label =
      let baseline' = filter_by_operation baseline method in
      let current' = filter_by_operation current method in
      if null baseline'
      then throw (baseline_label ++ codes " has no benchmark method '" ++ method ++ codes "'.")
      else if null current'
      then throw (current_label ++ codes " has no benchmark method '" ++ method ++ codes "'.")
      else ok (baseline', current')

  -- the overload for a group of methods
  unfoldable pub apply_group_filter :
      List (BenchmarkResult D)
      → List (BenchmarkResult D)
      → List Bytes
      → Bytes
      → Bytes
      → Result (List (BenchmarkResult D) × List (BenchmarkResult D))
  apply_group_filter baseline current methods current_label baseline_label =
      let baseline' = filter_by_operations baseline methods in
      let current' = filter_by_operations current methods in
      if null baseline'
      then throw (baseline_label ++ codes " has no benchmark methods in that group.")
      else if null current'
      then throw (current_label ++ codes " has no benchmark methods in that group.")
      else ok (baseline', current')
