-- ===== src/Regression/Cli/Run.antt =====
-- What a comparison with no method filter does, from the arguments to the recorded rows.
use mathlib.Core.Path.{subst}
use rate_throttle.Prelude.{ℕ, ◌<◌, ◌^◌, ◌≡◌, refl, ◌∙◌, List, [], ◌∷◌, ◌++◌, map, arith}
use rate_throttle.Prelude.Int.{pos}
use rate_throttle.Text.{Bytes, Result, ok}
use rate_throttle.Regression.Double.{Double}
use rate_throttle.Regression.Results.{BenchmarkResult}
use rate_throttle.Regression.Versions.{Baseline, Entry}
use rate_throttle.Regression.Versions.Agree.{version_tag, parse-version_tag}
use rate_throttle.Regression.Versions.Order.{IsOneOf, NoneNewer}
use rate_throttle.Regression.Versions.Newest.{collect_baselines, latest_baseline}
use rate_throttle.Regression.Versions.Newest.Maximum.{latest_baseline-IsNewest, IsNewest, path_of}
use rate_throttle.Regression.Report.{Tool}
use rate_throttle.Regression.Report.Rows.{print, note}
use rate_throttle.Regression.Report.Rows.Records.{compared, print_regression-results}
use rate_throttle.Regression.Report.Summary.{print_summary, summary_row}
use rate_throttle.Regression.Cli.{
  live_results_file, baseline_path, leading_versions, second_version, join_words, sides,
  filter_sides, resolve, run_comparison, ended, compare_main,
}

-- The baseline of a tag.
abbrev pub numbered : ℕ → ℕ → ℕ → Baseline
numbered major minor patch = record {
  major = pos major;
  minor = pos minor;
  patch = pos patch;
  name = version_tag major minor patch;
}

module _ (double : Double) where
  open double use {D}

  summary-results : (tool : Tool double) → (print_summary double tool).results ≡ tool.results
  unfolding print_summary print note summary_row
  summary-results tool = ground arith

  module _ (entries : List Entry) (load : Bytes → Result (List (BenchmarkResult D))) where
    -- A comparison that succeeds with the rows `baseline` against `current`.
    pub Compares :
        List Bytes → Tool double → List (BenchmarkResult D) → List (BenchmarkResult D) → Type 0
    Compares args tool baseline current =
        ((compare_main double entries load args tool).status ≡ 0)
        × ((compare_main double entries load args tool).tool.results
            ≡ tool.results ++ map (compared double current) baseline)

    run-Compares :
        (args : List Bytes) (versions : List Baseline) (current_file baseline_file : Bytes)
        (tool : Tool double) (baseline current : List (BenchmarkResult D))
        → leading_versions args ≡ (versions, [])
        → sides entries versions ≡ ok (current_file, baseline_file)
        → load baseline_file ≡ ok baseline
        → load current_file ≡ ok current
        → Compares args tool baseline current
    unfolding Compares compare_main run_comparison ended resolve filter_sides join_words
    run-Compares args versions current_file baseline_file tool baseline current v s b c =
        rw (v, s, b, c)
          (refl, summary-results _ ∙ print_regression-results double baseline current _)

    -- With the tag of three numbers below 2 ^ 31 as the only argument, if its file and the live
    -- results can be loaded, the tool ends with status 0 and adds one row for each entry of the
    -- tag's baseline, compared with the live results.
    pub main-tag :
        (major minor patch : ℕ) (tool : Tool double) (baseline current : List (BenchmarkResult D))
        → major < 2 ^ 31
        → minor < 2 ^ 31
        → patch < 2 ^ 31
        → load (path_of (numbered major minor patch)) ≡ ok baseline
        → load live_results_file ≡ ok current
        → Compares (version_tag major minor patch ∷ []) tool baseline current
    unfolding leading_versions second_version sides baseline_path
    main-tag major minor patch tool baseline current ha hb hc b c =
        run-Compares (version_tag major minor patch ∷ []) (numbered major minor patch ∷ [])
          live_results_file (path_of (numbered major minor patch)) tool baseline current
          (rw ((parse-version_tag major minor patch ha hb hc).1, leading_versions) refl) refl b c

    -- With two tags of numbers below 2 ^ 31 as the arguments, if both files can be loaded, the tool
    -- ends with status 0 and adds one row for each entry of the second tag's file, compared with the
    -- first tag's.
    pub main-tags :
        (a b c d e f : ℕ) (tool : Tool double) (baseline current : List (BenchmarkResult D))
        → a < 2 ^ 31
        → b < 2 ^ 31
        → c < 2 ^ 31
        → d < 2 ^ 31
        → e < 2 ^ 31
        → f < 2 ^ 31
        → load (path_of (numbered d e f)) ≡ ok baseline
        → load (path_of (numbered a b c)) ≡ ok current
        → Compares (version_tag a b c ∷ version_tag d e f ∷ []) tool baseline current
    unfolding leading_versions second_version sides baseline_path
    main-tags a b c d e f tool baseline current ha hb hc hd he hf l k =
        run-Compares (version_tag a b c ∷ version_tag d e f ∷ [])
          (numbered a b c ∷ numbered d e f ∷ []) (path_of (numbered a b c))
          (path_of (numbered d e f)) tool baseline current
          (rw ((parse-version_tag a b c ha hb hc).1, leading_versions)
            (rw ((parse-version_tag d e f hd he hf).1, second_version) refl))
          refl l k

    -- Without arguments, if the listing is not empty and every file can be loaded, the tool compares
    -- a listed baseline, than which no listed one is newer, with the live results: it ends with
    -- status 0 and adds one row for each entry of that baseline.
    pub main-newest :
        (snapshot : Bytes → List (BenchmarkResult D)) (b : Baseline) (bs : List Baseline)
        (tool : Tool double)
        → collect_baselines entries ≡ ok (b ∷ bs)
        → ((file : Bytes) → load file ≡ ok (snapshot file))
        → (m : Baseline) × IsOneOf m (b ∷ bs)
          × NoneNewer m (b ∷ bs)
          × Compares [] tool (snapshot (path_of m)) (snapshot live_results_file)
    unfolding leading_versions sides
    main-newest snapshot b bs tool listed loads =
        let (m, one, none_newer, found) =
          subst (λ r. IsNewest r (latest_baseline entries)) listed
            (latest_baseline-IsNewest entries) in
        (
          m,
          one,
          none_newer,
          run-Compares [] [] live_results_file (path_of m) tool (snapshot (path_of m))
              (snapshot live_results_file) refl (rw (found) refl) (loads (path_of m))
              (loads live_results_file),
        )
