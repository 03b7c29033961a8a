-- ===== src/Google/Cli/Run.antt =====
-- What a comparison of the google tool does, from the arguments to the recorded rows.
use mathlib.Core.Path.{subst}
use rate_throttle.Prelude.{
  ℕ, ◌+◌, ◌<◌, ◌^◌, ◌≡◌, ◌≢◌, refl, ◌∙◌, true, false, List, [], ◌∷◌, ◌++◌, map, arith, some, none,
  get_elem?,
}
use rate_throttle.Text.{Bytes, is_alpha, null, Result, ok}
use rate_throttle.Regression.Double.{Double}
use rate_throttle.Regression.Versions.{Baseline, has_v, try_parse_version_arg as custom_try_parse}
use rate_throttle.Regression.Versions.Agree.{version_tag, parse-version_tag}
use rate_throttle.Regression.Versions.Order.{IsOneOf, NoneNewer}
use rate_throttle.Regression.Versions.Newest.{collect_baselines}
use rate_throttle.Regression.MethodIds.{method_id, looks_like_method_id as custom_looks_like}
use rate_throttle.Regression.MethodIds.RoundTrip.{HasGroup, looks_like-method_id}
use rate_throttle.Regression.Groups.Order.{AllNamed}
use rate_throttle.Regression.Cli.{leading_versions, second_version, join_words}
use rate_throttle.Regression.Cli.Run.{numbered}
use rate_throttle.Google.{
  GoogleResult, Folder, unique_names, filter_by_name, apply_name_filter, latest_google_baseline,
}
use rate_throttle.Google.Common.{
  looks_like_method_id, group_methods_by_letter, try_parse_version_arg,
}
use rate_throttle.Google.Ids.{resolve_name_id, resolve-names}
use rate_throttle.Google.Newest.{
  entry_of, google_path, IsNewestSnapshot, latest_google-IsNewestSnapshot,
}
use rate_throttle.Google.Table.{GoogleTool}
use rate_throttle.Google.Table.Records.{google_compared, google_regression-rows}
use rate_throttle.Google.Summary.{google_summary-rows}
use rate_throttle.Google.Cli.{
  google_live_file, google_baseline_path, google_sides, google_filter_sides, google_resolve,
  google_comparison, google_ended, google_main,
}

module _ (double : Double) (folders : List Folder) where
  open double use {D}

  module _ (load : Bytes → Result (List (GoogleResult D))) where
    -- A comparison that succeeds with the rows `baseline` against `current`.
    pub GoogleCompares :
        List Bytes → GoogleTool double → List (GoogleResult D) → List (GoogleResult D) → Type 0
    GoogleCompares args tool baseline current =
        ((google_main double folders load args tool).status ≡ 0)
        × ((google_main double folders load args tool).tool.rows
            ≡ tool.rows ++ map (google_compared double current) baseline)

    run_lem :
        (args words : List Bytes) (versions : List Baseline) (current_file baseline_file : Bytes)
        (tool : GoogleTool double) (filter : Bytes) (group : List Bytes)
        (baseline current baseline' current' : List (GoogleResult D))
        → leading_versions args ≡ (versions, words)
        → google_sides folders versions ≡ ok (current_file, baseline_file)
        → google_resolve double folders load (join_words [] words) baseline_file
          ≡ ok (filter, group)
        → load baseline_file ≡ ok baseline
        → load current_file ≡ ok current
        → ((current_label baseline_label : Bytes)
            → google_filter_sides double folders load filter baseline current current_label
                baseline_label group
              ≡ ok (baseline', current'))
        → GoogleCompares args tool baseline' current'
    unfolding GoogleCompares google_main google_comparison google_ended
    run_lem args words versions current_file baseline_file tool filter group baseline current
          baseline' current' v s r b c f =
        rw (v, s, r, b, c, f)
          (refl, google_summary-rows double _ ∙ google_regression-rows double baseline' current' _)

    -- Without arguments, if a folder holds a snapshot of the tool and every file can be loaded, the
    -- google tool compares a listed baseline, than which no listed one is newer, with the live
    -- results: it ends with status 0 and adds one row for each entry of that baseline.
    pub google_main-newest :
        (snapshot : Bytes → List (GoogleResult D)) (b : Baseline) (bs : List Baseline)
        (tool : GoogleTool double)
        → collect_baselines (map entry_of folders) ≡ ok (b ∷ bs)
        → ((file : Bytes) → load file ≡ ok (snapshot file))
        → (m : Baseline) × IsOneOf m (b ∷ bs)
          × NoneNewer m (b ∷ bs)
          × GoogleCompares [] tool (snapshot (google_path m.name)) (snapshot google_live_file)
    unfolding leading_versions google_sides join_words google_resolve google_filter_sides
    google_main-newest snapshot b bs tool listed loads =
        let (m, one, none_newer, found) =
          subst (λ r. IsNewestSnapshot r (latest_google_baseline folders)) listed
            (latest_google-IsNewestSnapshot folders) in
        let file = google_path m.name in
        (
          m,
          one,
          none_newer,
          run_lem [] [] [] google_live_file file tool [] [] (snapshot file)
              (snapshot google_live_file) (snapshot file) (snapshot google_live_file) refl
              (rw found refl) refl (loads file) (loads google_live_file) (λ c l. refl),
        )

    not_a_version : (arg : Bytes) → has_v arg ≡ false → try_parse_version_arg arg ≡ none
    unfolding custom_try_parse
    not_a_version arg h = rw (custom_try_parse, h) refl

    tagged :
        (a b c : ℕ) (arg : Bytes)
        → a < 2 ^ 31
        → b < 2 ^ 31
        → c < 2 ^ 31
        → has_v arg ≡ false
        → leading_versions (version_tag a b c ∷ arg ∷ []) ≡ (numbered a b c ∷ [], arg ∷ [])
    unfolding leading_versions second_version
    tagged a b c arg ha hb hc h =
        rw ((parse-version_tag a b c ha hb hc).1, leading_versions)
          (rw (not_a_version arg h, second_version) refl)

    no_id : looks_like_method_id [] ≢ true
    unfolding custom_looks_like
    no_id h = ground arith

    resolved :
        (id name file : Bytes)
        → looks_like_method_id id ≡ true
        → resolve_name_id load id file ≡ ok name
        → google_resolve double folders load (join_words [] (id ∷ [])) file ≡ ok (name, [])
    unfolding google_resolve join_words
    resolved [] name file looks found = absurd (no_id looks)
    resolved (d ∷ id) name file looks found = rw (looks, found) refl

    filtered :
        (name : Bytes) (baseline current : List (GoogleResult D))
        (current_label baseline_label : Bytes)
        → null name ≡ false
        → null (filter_by_name baseline name) ≡ false
        → null (filter_by_name current name) ≡ false
        → google_filter_sides double folders load name baseline current current_label baseline_label
            []
          ≡ ok (filter_by_name baseline name, filter_by_name current name)
    unfolding google_filter_sides apply_name_filter
    filtered name baseline current current_label baseline_label n b c = rw (n, b, c) refl

    -- With the tag of three numbers below 2 ^ 31 and the id of a listed benchmark as the arguments,
    -- under a letter other than V, if the tag's file and the live results can be loaded, no benchmark
    -- of the file has an empty name, and both sides have a result of the benchmark, then the google
    -- tool ends with status 0 and adds one row for each entry of this benchmark in the tag's file,
    -- compared with the live results.
    pub google_main-id :
        (a b c l j : ℕ) (ms : List Bytes) (name : Bytes) (tool : GoogleTool double)
        (baseline current : List (GoogleResult D))
        → a < 2 ^ 31
        → b < 2 ^ 31
        → c < 2 ^ 31
        → load (google_baseline_path (numbered a b c)) ≡ ok baseline
        → load google_live_file ≡ ok current
        → AllNamed (unique_names baseline)
        → HasGroup l ms (group_methods_by_letter (unique_names baseline))
        → get_elem? ms j ≡ some name
        → j + 1 < 2 ^ 64
        → is_alpha l ≡ true
        → has_v (method_id l j) ≡ false
        → null name ≡ false
        → null (filter_by_name baseline name) ≡ false
        → null (filter_by_name current name) ≡ false
        → GoogleCompares
            (version_tag a b c ∷ method_id l j ∷ [])
            tool
            (filter_by_name baseline name)
            (filter_by_name current name)
    unfolding google_sides
    google_main-id a b c l j ms name tool baseline current ha hb hc loaded live named group member
          fits alpha no_v some_name in_baseline in_current =
        let id = method_id l j in
        let tag = numbered a b c in
        let file = google_baseline_path tag in
        run_lem (version_tag a b c ∷ id ∷ []) (id ∷ []) (tag ∷ []) google_live_file file tool name
          [] baseline current (filter_by_name baseline name) (filter_by_name current name)
          (tagged a b c id ha hb hc no_v) refl
          (resolved id name file (looks_like-method_id l j alpha).0
            ((resolve-names load file baseline l ms loaded named group).1 j name member fits))
          loaded live λ cl bl. filtered name baseline current cl bl some_name in_baseline in_current
