-- ===== src/Regression/Listing/Tests.antt =====
-- The theorems on the listings at concrete inputs.
use Prim.Native.Nat.{min}
use rate_throttle.Prelude.{◌+◌, ◌≡◌, refl, List, [], ◌∷◌, arith, true, false, length}
use rate_throttle.Text.{Bytes, codes, Result, ok}
use rate_throttle.Text.Decimal.{to_string}
use rate_throttle.Regression.Results.{BenchmarkResult}
use rate_throttle.Regression.Results.Methods.{occurrences}
use rate_throttle.Regression.MethodIds.{method_id}
use rate_throttle.Regression.Versions.{Entry}
use rate_throttle.Regression.Versions.Newest.{collect_baselines}
use rate_throttle.Regression.Table.{display_width, is_continuation}
use rate_throttle.Regression.Listing.{set_w, listing, print_list}
use rate_throttle.Regression.Listing.Align.{display_width-method_id}
use rate_throttle.Regression.Listing.Trees.{
  whites, listing-methods, IsListing, print_list-IsListing,
}

abbrev results : List (BenchmarkResult (Unit {0}))
results =
    record {
      suite = codes "limiter";
      operation = codes "allow";
      total_ns = 5;
      iterations = 10_000;
      ns_per_op = tt;
    }
    ∷ record {
      suite = codes "limiter";
      operation = codes "allow";
      total_ns = 50;
      iterations = 100_000;
      ns_per_op = tt;
    }
    ∷ []

abbrev load : Bytes → Result (List (BenchmarkResult (Unit {0})))
load file = ok results

listing-methods_example :
    (names : List Bytes) × ((x : Bytes)
      → occurrences x names ≡ min 1 (occurrences x (codes "allow" ∷ codes "allow" ∷ [])))
    × (whites (listing load (codes "v1.2.0") results)
        ≡ set_w 13 (codes "Version") ∷ set_w 13 (codes "Methods") ∷ names)
listing-methods_example = listing-methods load (codes "v1.2.0") results

abbrev entries : List Entry
entries =
    record { is_directory = true; filename = codes "v1.10.0" }
    ∷ record { is_directory = false; filename = codes "README.md" }
    ∷ record { is_directory = true; filename = codes "v1.2.0" }
    ∷ []

print_list-IsListing_example :
    IsListing (collect_baselines entries) (print_list entries (codes "ThrottlePro"))
print_list-IsListing_example = print_list-IsListing entries (codes "ThrottlePro")

display_width-method_id_example :
    display_width (set_w (length (to_string 12) + 1) (method_id b'W' 3)) ≡ length (to_string 12) + 1
unfolding is_continuation
display_width-method_id_example = display_width-method_id b'W' 3 12 refl (omega arith)
