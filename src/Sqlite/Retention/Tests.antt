-- ===== src/Sqlite/Retention/Tests.antt =====
-- Runs of the glob matcher and of the plan of
-- `crates/blobyard-repository-sqlite/src/lifecycle_retention_plan.rs`.
use blobyard_core.Contract.{UploadState, ObjectSource, ObjectVersionRecord}
use blobyard_core.Sqlite.Retention.{
  RetentionPolicy, recall, glob_step, glob_at, glob_matches, protected_path, policy_matches, newer,
  place, candidates, matching, matching_versions, planned,
}
use blobyard_core.Sqlite.Retention.Glob.{Matches, tokens}
use blobyard_core.Sqlite.Retention.Matcher.{glob_matches-Matches}
use blobyard_core.Sqlite.Retention.Plan.{In, IsEligible, planned-IsEligible}
use blobyard_core.Sqlite.Retention.Newest.{IsNewestFirst}
use blobyard_core.Base.{
  ◌≤◌, sum_by, ℕ, ◌≡◌, refl, ◌↔◌, Bool, true, false, none, some, List, [], ◌∷◌, drop, Str, lit,
  chars, text_runs,
}

unfoldable pub retention_runs : Unit {0}
unfolding text_runs recall glob_step glob_at glob_matches protected_path policy_matches newer place
    candidates matching matching_versions planned
retention_runs = tt

within_folder : glob_matches (lit "a/*.js") (lit "a/b.js") ≡ some true
unfolding retention_runs
within_folder = refl

not_deeper : glob_matches (lit "a/*.js") (lit "a/b/c.js") ≡ some false
unfolding retention_runs
not_deeper = refl

any_depth : glob_matches (lit "a/**.js") (lit "a/b/c.js") ≡ some true
unfolding retention_runs
any_depth = refl

glob_matches-Matches_example :
    (answer : Bool) × (glob_matches (lit "a/*.js") (lit "a/b.js") ≡ some answer)
    × ((answer ≡ true) ↔ Matches (tokens (chars (lit "a/*.js"))) (chars (lit "a/b.js")))
glob_matches-Matches_example = glob_matches-Matches (lit "a/*.js") (lit "a/b.js")

abbrev stored : Str → Str → ℕ → ObjectVersionRecord
stored id path created = record {
  id = id;
  project_id = lit "project";
  object_path = path;
  version = 1;
  storage_key = id;
  state = UploadState.complete;
  size = some 5;
  checksum = none;
  created_at_ms = created;
  source = ObjectSource.cli;
  git_repository = none;
  git_commit = none;
  git_branch = none;
}

abbrev old_log : ObjectVersionRecord
old_log = stored (lit "one") (lit "logs/a") 1

abbrev new_log : ObjectVersionRecord
new_log = stored (lit "two") (lit "logs/b") 2

abbrev yard_file : ObjectVersionRecord
yard_file = stored (lit "three") (lit ".blobyard-yard/logs") 3

abbrev shelf : List ObjectVersionRecord
shelf = old_log ∷ new_log ∷ yard_file ∷ []

abbrev keep_one : RetentionPolicy
keep_one = record {
  project_id = lit "project";
  keep_latest = 1;
  path_glob = some (lit "**");
  branch_glob = none;
}

oldest_goes : planned keep_one shelf ≡ some (old_log ∷ [])
unfolding retention_runs
oldest_goes = refl

planned-IsEligible_example :
    (rows : List ObjectVersionRecord) × (matching_versions keep_one shelf ≡ some rows)
    × ((v : ObjectVersionRecord) → In v rows ↔ (In v shelf × IsEligible keep_one v))
    × ((w : ObjectVersionRecord → ℕ) → sum_by w rows ≤ sum_by w shelf)
    × IsNewestFirst rows
    × (planned keep_one shelf ≡ some (drop 1 rows))
planned-IsEligible_example = planned-IsEligible keep_one shelf
