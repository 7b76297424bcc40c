-- ===== src/Tests/SourceSync.antt =====
-- The diff parser at concrete outputs.
use its_middle_platform_agen.Prelude.Strip.{is_empty, strip}
use its_middle_platform_agen.Prelude.Table.{select_one, insert_by, order_by, select_all}
use its_middle_platform_agen.Catalog.Sources.{list_sources}
use its_middle_platform_agen.Catalog.Jobs.{insert_job, enqueue_request, enqueue_job, new_job}
use its_middle_platform_agen.SourceSync.Scan.Repeating.{scan_once_again, is_scanned}
use its_middle_platform_agen.SourceSync.Scan.{
  scanned, commit_sha, wanted, Remote, GitConfig, scan_once,
}
use its_middle_platform_agen.Catalog.Models.{git, KnowledgeSource, Catalog}
use its_middle_platform_agen.SourceSync.Scan.Stored.{AddsJobs}
use its_middle_platform_agen.SourceSync.Diff.Progress.{parse_diff_ends}
use its_middle_platform_agen.Prelude.Result.{err, ok}
use its_middle_platform_agen.SourceSync.Diff.Printing.{written, fields, print_diff}
use its_middle_platform_agen.SourceSync.Diff.{
  unsupported_status, malformed_rename, split_tab, pop_empty, out_of_fuel, split_zero, has_code,
  change, parse_fields, GitFileChange, parse_diff, Bytes, modified, deleted, renamed,
}
use its_middle_platform_agen.Prelude.{
  true, none, Option, ◌==◌, ◌≢◌, if◌then◌else◌, String, List, ◌≡◌, some, [], ◌∷◌, refl,
}

-- A code of the paths below.
abbrev encode : String → Bytes
encode p = if p == "a" then 97 ∷ [] else if p == "b" then 98 ∷ [] else 99 ∷ []

abbrev decode : Bytes → String
decode bs = if has_code 97 bs then "a" else if has_code 98 bs then "b" else "c"

abbrev changes : List GitFileChange
changes =
    change modified "a"
    ∷ record { status = renamed; path = "b"; previous_path = some "c" }
    ∷ change deleted "c"
    ∷ []

abbrev output : Bytes
output = 77 ∷ 0 ∷ 97 ∷ 0 ∷ 82 ∷ 49 ∷ 48 ∷ 48 ∷ 0 ∷ 99 ∷ 0 ∷ 98 ∷ 0 ∷ 68 ∷ 0 ∷ 99 ∷ 0 ∷ []

printed : print_diff encode decode decode changes ≡ output
unfolding print_diff fields written
printed = refl

parsed : parse_diff decode decode output ≡ ok changes
unfolding parse_diff parse_fields split_zero pop_empty split_tab
parsed = refl

-- A rename that is cut after its old path, and a status that is not known.
cut_rename : parse_diff decode decode (82 ∷ 49 ∷ 0 ∷ 97 ∷ 0 ∷ []) ≡ err malformed_rename
unfolding parse_diff parse_fields split_zero pop_empty split_tab
cut_rename = refl

type_change : parse_diff decode decode (84 ∷ 0 ∷ 97 ∷ 0 ∷ []) ≡ err unsupported_status
unfolding parse_diff parse_fields split_zero pop_empty split_tab
type_change = refl

parse_diff_ends_example : parse_diff decode decode output ≢ err out_of_fuel
parse_diff_ends_example = parse_diff_ends decode decode output

abbrev orders_source : KnowledgeSource
orders_source = record {
  id = "s1";
  space_id = "middle-platform";
  domain_id = none;
  source_type = git;
  name = "orders";
  config = "{}";
  enabled = true;
  created_at = 1;
  updated_at = 1;
}

abbrev orders_db : Catalog
orders_db = record { sources = orders_source ∷ []; versions = []; jobs = [] }

abbrev orders_config : KnowledgeSource → GitConfig
orders_config s = record { project_id = some "7"; branch = "main"; last_synced_commit = "c1" }

abbrev orders_remote : Option String → String → Remote
orders_remote project branch = commit_sha "c2"

abbrev scanned_orders : Catalog
scanned_orders = record {
  sources = orders_source ∷ [];
  versions = [];
  jobs = new_job "job-s1" "s1" "scheduled" (some "c2") 5 5 ∷ [];
}

first_scan :
    scan_once orders_config orders_remote true (λ s. "job-s1") 5 orders_db
    ≡ (scanned 1, scanned_orders)
unfolding scan_once wanted list_sources select_all order_by insert_by enqueue_job enqueue_request
    insert_job select_one strip is_empty
first_scan = refl

scan_once_again_example :
    AddsJobs (is_scanned orders_db.sources) orders_db scanned_orders
    × (scan_once orders_config orders_remote true (λ s. "job-s2") 9 scanned_orders
        ≡ (scanned 1, scanned_orders))
scan_once_again_example =
    scan_once_again orders_config orders_remote true (λ s. "job-s1") (λ s. "job-s2") 5 9 orders_db 1
      scanned_orders first_scan
