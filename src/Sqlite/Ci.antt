-- ===== src/Sqlite/Ci.antt =====
-- Machine sessions of GitHub workflows and the trusts that allow them:
-- `crates/blobyard-repository-sqlite/src/ci_match.rs`, `ci_validation.rs` and
-- `crates/blobyard-contract/src/ci.rs`.
pub mod Globs
pub mod Scopes
mod Tests
use blobyard_core.Contract.{Repo, invalid_input}
use blobyard_core.Sqlite.Database.{to_i64, validate_text, validate_texts}
use blobyard_core.Base.{
  ℕ, zero, suc, ◌+◌, ◌-◌, ◌*◌, ◌/◌, ◌%◌, ◌^◌, ◌≤◌, ◌<◌, min, max, ◌≡◌, refl, sym, ap, ◌∙◌, ◌≡⟨◌⟩◌,
  ◌∎, ◌≢◌, ◌↔◌, ◌⊎◌, inl, inr, Bool, true, false, not, ◌&&◌, ◌||◌, Option, none, some, List, [],
  ◌∷◌, ◌++◌, map, reverse, reverse-cons, arith, ltb, leb, ◌==◌, if◌then◌else◌, ltb→lt, lt→ltb,
  leb→le, le→leb, ==_iff, tests, Bool-cases, Option-cases, length, is_empty, get_elem?, take, drop,
  all, any, keep, find?, place_by, order_by, length-append, All, Any, keep-keep-not, any-or,
  any-keep-not, any-implies, any-keep, find?-test, find?-keep, find?-append_last, keep_none,
  any_none, any-place_by, any-order_by, All-map, All-zip, All-of_any, any_of_All, All-of_append_map,
  keep_cong-All, keep_cong, any_cong, any_and, any-append, any-map, length-place_by,
  length-order_by, length-keep_images, length-drop, sum_by, sum_by-append, sum_by_zero, drop_elem,
  drop_end, get_elem?-lt, get_elem?-end, plus_one, plus_two, Str, lit, str_eq, str_eq_iff,
  str_eq_refl, str_lt, add_first, split, strip_prefix, is_digit, is_lower, is_upper, is_alphabetic,
  is_alphanumeric, Result, ok_or, ◌>>=◌, ◌>>◌, guard, ok-injective, guard-eq-ok, ok_or-eq-ok,
  >>=-eq-ok, >>-eq-ok, chars, is_control, is_whitespace, has_control, is_utf8, contains, set_insert,
  to_set, sort, lookup, has_key, contains-append, contains-reverse, contains-set_insert,
  contains-to_set, contains-sort, has_key_iff, has_key_of_lookup, has_key_of_none, first_is,
  last_is, split_once, rsplit_once, strip_suffix, starts_with, ends_with, is_some_and, is_none_or,
  one_of, ok, err, text_runs,
}

pub data CiAction : Type 0 where
  download share upload yard_manage : CiAction

pub record LocalCiTrustRecord : Type 0 where
  pub id : Str
  pub workspace_id : Str
  pub project_id : Option Str
  pub repository : Str
  pub workflow_path : Str
  pub workflow_ref : Str
  pub allowed_ref_glob : Str
  pub environment : Option Str
  pub allowed_actions : List CiAction
  pub audience : Str
  pub created_at_ms : ℕ
  pub revoked_at_ms : Option ℕ

-- `remaining.find(segment)`, and what follows the place that is found.
unfoldable pub find_after : Str → Str → Option Str
unfolding strip_prefix
find_after segment [] = strip_prefix segment []
find_after segment (c ∷ s) = elim (strip_prefix segment (c ∷ s)) [
  | some tail ↦ some tail
  | none ↦ find_after segment s
]

-- The loop of `ref_matches`, whose last segment ends the text.
unfoldable pub match_segments : List Str → Str → Bool
unfolding strip_prefix strip_suffix find_after
match_segments [] remaining = is_empty remaining
match_segments (segment ∷ []) remaining = ends_with segment remaining
match_segments (segment ∷ next ∷ segments) remaining = elim (find_after segment remaining) [
  | none ↦ false
  | some tail ↦ match_segments (next ∷ segments) tail
]

-- `segments.next().unwrap_or_default()`.
unfoldable pub match_pieces : List Str → Str → Bool
unfolding strip_prefix match_segments
match_pieces [] value = is_empty value
match_pieces (first ∷ segments) value = elim (strip_prefix first value) [
  | none ↦ false
  | some remaining ↦ match_segments segments remaining
]

unfoldable pub ref_matches : Str → Str → Bool
unfolding match_pieces split
ref_matches value glob = match_pieces (split b'*' glob) value

-- `value.contains(segment)`.
abbrev pub has_part : Str → Str → Bool
has_part segment value = is_some_and (find_after segment value) (λ tail. true)

abbrev pub byte_in : Str → ℕ → Bool
byte_in bytes b = any (λ k. k == b) bytes

abbrev pub ref_byte : ℕ → Bool
ref_byte b = is_alphanumeric b || byte_in (lit "._/-") b

unfoldable pub valid_github_repository_part : Str → ℕ → Bool → Bool
unfolding last_is
valid_github_repository_part value maximum extended =
    not (is_empty value)
    && leb (length value) maximum
    && all (λ b. is_alphanumeric b || b == b'-' || (extended && byte_in (lit "._") b)) value
    && first_is is_alphanumeric value
    && last_is is_alphanumeric value

abbrev pub yaml_name : Str → Bool
yaml_name name =
    is_some_and (rsplit_once b'.' name)
      (λ parts. str_eq parts.1 (lit "yml") || str_eq parts.1 (lit "yaml"))

unfoldable pub valid_github_workflow_path : Str → Bool
unfolding strip_prefix rsplit_once str_eq
valid_github_workflow_path value =
    is_some_and (strip_prefix (lit ".github/workflows/") value)
      (λ name. yaml_name name && all (λ b. is_alphanumeric b || byte_in (lit "._-") b) name)

unfoldable pub valid_github_ref_tail : Str → Bool
unfolding find_after
valid_github_ref_tail value =
    not (is_empty value) && not (has_part (lit "..") value) && all ref_byte value

abbrev pub named_refs : List Str
named_refs = lit "refs/heads/" ∷ lit "refs/tags/" ∷ lit "refs/pull/" ∷ []

unfoldable pub valid_glob_tail : Str → Bool
unfolding find_after
valid_glob_tail value =
    not (is_empty value)
    && not (has_part (lit "..") value)
    && not (has_part (lit "**") value)
    && all (λ b. is_alphanumeric b || byte_in (lit "._/-*") b) value

unfoldable pub valid_ref_glob : Str → Bool
unfolding strip_prefix valid_glob_tail
valid_ref_glob value =
    any (λ prefix. is_some_and (strip_prefix prefix value) valid_glob_tail) named_refs

abbrev pub is_hex_digit : ℕ → Bool
is_hex_digit b = is_digit b || (leb b'a' b && leb b b'f') || (leb b'A' b && leb b b'F')

unfoldable pub valid_git_ref : Str → Bool
unfolding strip_prefix valid_github_ref_tail
valid_git_ref value =
    any (λ prefix. is_some_and (strip_prefix prefix value) valid_github_ref_tail) named_refs
    || (length value == 40 && all is_hex_digit value)

-- `value == value.to_ascii_lowercase()` is that no byte is an upper-case letter.
unfoldable pub valid_repository : Str → Bool
unfolding split_once valid_github_repository_part
valid_repository value = is_some_and (split_once b'/' value) (λ parts.
    not (any is_upper value)
    && valid_github_repository_part parts.0 39 false
    && valid_github_repository_part parts.1 100 true)

abbrev pub same_action : CiAction → CiAction → Bool
same_action download download = true
same_action share share = true
same_action upload upload = true
same_action yard_manage yard_manage = true
same_action _ _ = false

abbrev pub has_action : List CiAction → CiAction → Bool
has_action actions action = any (same_action action) actions

-- `unique.len() == actions.len()`.
abbrev pub distinct_actions : List CiAction → Bool
distinct_actions [] = true
distinct_actions (a ∷ actions) = not (has_action actions a) && distinct_actions actions

unfoldable pub validate_actions : List CiAction → Repo (Unit {0})
validate_actions actions =
    guard (not (is_empty actions || ltb 4 (length actions)) && distinct_actions actions)
      invalid_input

abbrev pub validate_optional : Option Str → Repo (Unit {0})
validate_optional none = ok tt
validate_optional (some value) = validate_text value

unfoldable pub validate_trust : LocalCiTrustRecord → Repo ℕ
validate_trust trust = do
  validate_texts (
      trust.id ∷ trust.workspace_id ∷ trust.repository ∷ trust.workflow_path ∷ trust.workflow_ref
      ∷ trust.allowed_ref_glob ∷ trust.audience ∷ [])
  validate_optional trust.project_id
  validate_optional trust.environment
  guard
      (not (is_some_and trust.revoked_at_ms (λ at. true))
        && valid_repository trust.repository
        && valid_github_workflow_path trust.workflow_path
        && valid_git_ref trust.workflow_ref
        && valid_ref_glob trust.allowed_ref_glob)
      invalid_input
  validate_actions trust.allowed_actions
  to_i64 trust.created_at_ms
