-- ===== src/Google/Table/Records.antt =====
-- What a comparison of the google tool records.
use rate_throttle.Prelude.{
  ◌≡◌, sym, List, [], ◌∷◌, ◌++◌, ite, arith, map, ap, ◌∙◌, append_assoc, append-nil,
}
use rate_throttle.Text.{Bytes, codes, bytes_dec}
use rate_throttle.Regression.Double.{Double}
use rate_throttle.Regression.Report.{newline}
use rate_throttle.Regression.Report.Rows.{pct_change}
use rate_throttle.Google.{GoogleResult, base_name, get_real_time}
use rate_throttle.Google.Table.{
  GoogleRow, GoogleTool, emit, open_group, close_group, print_google_row, groups_loop,
  print_google_regression,
}

module _ (double : Double) where
  open double use {D, of_ℕ}

  -- The comparison of one entry: both values, and the change between them.
  pub google_compared : List (GoogleResult D) → GoogleResult D → GoogleRow double
  google_compared current entry =
      let c = get_real_time (of_ℕ 0) current entry.name in
      record {
        name = entry.name;
        baseline_ns = entry.real_time;
        current_ns = c;
        pct = pct_change double entry.real_time c;
      }

  switch-rows :
      (group header : Bytes) (tool : GoogleTool double)
      → (ite (bytes_dec group header) tool (
          open_group double header (
            emit double
              (newline ∷ [])
              []
              (ite (bytes_dec group (codes " ")) tool (close_group double tool))))).rows
        ≡ tool.rows
  unfolding open_group emit close_group
  switch-rows group header tool = ground arith

  loop-rows :
      (group : Bytes) (baseline current : List (GoogleResult D)) (tool : GoogleTool double)
      → (groups_loop double group baseline current tool).1.rows
        ≡ tool.rows ++ map (google_compared current) baseline
  unfolding groups_loop print_google_row emit google_compared
  loop-rows group [] current tool = sym (append-nil tool.rows)
  loop-rows group (entry ∷ baseline) current tool =
      loop-rows (base_name entry.name) baseline current _
      ∙ ap
          (λ (rs : List (GoogleRow double)).
            (rs ++ google_compared current entry ∷ []) ++ map (google_compared current) baseline)
          (switch-rows group (base_name entry.name) tool)
      ∙ append_assoc tool.rows (google_compared current entry ∷ [])
          (map (google_compared current) baseline)

  -- A comparison of the google tool adds to the recorded rows one row for each entry of the baseline,
  -- in order, with the times of both sides and the change between them.
  pub google_regression-rows :
      (baseline current : List (GoogleResult D)) (tool : GoogleTool double)
      → (print_google_regression double baseline current tool).rows
        ≡ tool.rows ++ map (google_compared current) baseline
  unfolding print_google_regression close_group emit
  google_regression-rows baseline current tool =
      ground (arith, loop-rows (codes " ") baseline current tool)
