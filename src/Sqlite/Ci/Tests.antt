-- ===== src/Sqlite/Ci/Tests.antt =====
-- Runs of `crates/blobyard-repository-sqlite/src/ci_validation.rs`.
use blobyard_core.Sqlite.Ci.{
  find_after, match_segments, match_pieces, ref_matches, valid_ref_glob, valid_git_ref,
  valid_repository, valid_github_repository_part, valid_github_workflow_path, valid_glob_tail,
  valid_github_ref_tail, named_refs,
}
use blobyard_core.Sqlite.Ci.Globs.{IsMatch, ref_matches_iff}
use blobyard_core.Sqlite.Ci.Scopes.{valid_ref_glob-ref_matches}
use blobyard_core.Base.{◌≡◌, refl, ◌↔◌, true, false, any, Str, lit, split, starts_with, text_runs}

unfoldable ci_runs : Unit {0}
unfolding text_runs find_after match_segments match_pieces ref_matches valid_github_repository_part
    valid_github_workflow_path valid_github_ref_tail valid_glob_tail valid_ref_glob valid_git_ref
    valid_repository
ci_runs = tt

abbrev release : Str
release = lit "refs/heads/release/v1/hotfix"

abbrev releases : Str
releases = lit "refs/heads/release/*/hot*"

run_match : ref_matches release releases ≡ true
unfolding ci_runs
run_match = refl

run_other : ref_matches (lit "refs/heads/main") releases ≡ false
unfolding ci_runs
run_other = refl

-- The last piece ends the text wherever the earlier ones are found.
run_last : ref_matches (lit "refs/heads/ab") (lit "refs/heads/*ab*b") ≡ false
unfolding ci_runs
run_last = refl

run_glob : valid_ref_glob releases ≡ true
unfolding ci_runs
run_glob = refl

run_repository : valid_repository (lit "octo-org/blob.yard") ≡ true
unfolding ci_runs
run_repository = refl

run_workflow : valid_github_workflow_path (lit ".github/workflows/ci.release.yml") ≡ true
unfolding ci_runs
run_workflow = refl

run_commit : valid_git_ref (lit "0123456789abcdefABCDEF0123456789abcdef01") ≡ true
unfolding ci_runs
run_commit = refl

ref_matches_iff_example :
    (ref_matches release releases ≡ true) ↔ IsMatch (split b'*' releases) release
ref_matches_iff_example = ref_matches_iff release releases

valid_ref_glob-ref_matches_example : any (λ prefix. starts_with prefix release) named_refs ≡ true
valid_ref_glob-ref_matches_example = valid_ref_glob-ref_matches release releases run_glob run_match
