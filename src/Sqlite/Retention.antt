-- ===== src/Sqlite/Retention.antt =====
-- The choice of versions to delete, and its glob matcher:
-- `crates/blobyard-repository-sqlite/src/lifecycle_retention_plan.rs`. The memo table is an
-- association list; `none` is a run out of fuel, which is of the model alone.
pub mod Glob
pub mod Places
pub mod Matcher
pub mod Newest
pub mod Plan
pub mod Tests
use blobyard_core.Contract.{ObjectVersionRecord, is_complete}
use blobyard_core.Base.{
  ℕ, zero, suc, ◌+◌, ◌-◌, ◌*◌, ◌/◌, ◌%◌, ◌^◌, ◌≤◌, ◌<◌, min, max, ◌≡◌, refl, sym, ap, ◌∙◌, ◌≡⟨◌⟩◌,
  ◌∎, ◌≢◌, ◌↔◌, ◌⊎◌, inl, inr, Bool, true, false, not, ◌&&◌, ◌||◌, Option, none, some, List, [],
  ◌∷◌, ◌++◌, map, reverse, reverse-cons, arith, ltb, leb, ◌==◌, if◌then◌else◌, ltb→lt, lt→ltb,
  leb→le, le→leb, ==_iff, tests, Bool-cases, Option-cases, length, is_empty, get_elem?, take, drop,
  all, any, keep, find?, length-append, All, Any, Str, lit, str_eq, str_eq_iff, str_eq_refl, str_lt,
  add_first, split, strip_prefix, is_digit, is_lower, is_upper, is_alphabetic, is_alphanumeric,
  Result, ok_or, ◌>>=◌, ◌>>◌, guard, ok-injective, guard-eq-ok, ok_or-eq-ok, >>=-eq-ok, >>-eq-ok,
  chars, is_control, is_whitespace, has_control, is_utf8, contains, set_insert, to_set, sort,
  lookup, has_key, contains-append, contains-reverse, contains-set_insert, contains-to_set,
  contains-sort, has_key_iff, has_key_of_lookup, has_key_of_none, first_is, last_is, split_once,
  rsplit_once, strip_suffix, starts_with, ends_with, is_some_and, is_none_or, one_of, ok, err,
  text_runs,
}

abbrev pub Memo : Type 0
Memo = List ((ℕ × ℕ) × Bool)

-- `memo.get`.
unfoldable pub recall : ℕ → ℕ → Memo → Option Bool
recall p i [] = none
recall p i (((q, j), value) ∷ memo) = if p == q && i == j then some value else recall p i memo

abbrev pub Answer : Type 0
Answer = Option (Bool × Memo)

-- `||` of two calls that share the memo.
abbrev pub or_else : Answer → (Memo → Answer) → Answer
or_else none rest = none
or_else (some (true, memo)) rest = some (true, memo)
or_else (some (false, memo)) rest = rest memo

-- A test `&&` a call.
abbrev pub and_then : Bool → (Memo → Answer) → Memo → Answer
and_then true call memo = call memo
and_then false call memo = some (false, memo)

abbrev pub not_slash : ℕ → Bool
not_slash c = not (c == b'/')

-- The `match` of `glob_at`; `again` is the recursive call.
unfoldable pub glob_step :
    (ℕ → ℕ → Memo → Answer) → (pattern input : List ℕ) → ℕ → ℕ → Memo → Option ℕ → Answer
glob_step again pattern input p i memo none = some (i == length input, memo)
glob_step again pattern input p i memo (some c) =
    if c == b'*'
    then (if is_some_and (get_elem? pattern (p + 1)) (λ d. d == b'*')
        then or_else (again (p + 2) i memo) (and_then (ltb i (length input)) (again p (i + 1)))
        else or_else (again (p + 1) i memo)
            (and_then (is_some_and (get_elem? input i) not_slash) (again p (i + 1))))
    else if c == b'?'
    then and_then (is_some_and (get_elem? input i) not_slash) (again (p + 1) (i + 1)) memo
    else and_then (is_some_and (get_elem? input i) (λ d. d == c)) (again (p + 1) (i + 1)) memo

-- `memo.insert`.
abbrev pub remember : ℕ → ℕ → Answer → Answer
remember p i none = none
remember p i (some (value, memo)) = some (value, ((p, i), value) ∷ memo)

abbrev pub recalled : Option Bool → Memo → Answer → Answer
recalled (some value) memo computed = some (value, memo)
recalled none memo computed = computed

unfoldable pub glob_at : ℕ → (pattern input : List ℕ) → ℕ → ℕ → Memo → Answer
glob_at zero pattern input p i memo = none
glob_at (suc fuel) pattern input p i memo =
    let again = λ (q : ℕ) (j : ℕ) (m : Memo). glob_at fuel pattern input q j m in
    recalled (recall p i memo) memo
      (remember p i (glob_step again pattern input p i memo (get_elem? pattern p)))

abbrev pub matched : Answer → Option Bool
matched none = none
matched (some (value, memo)) = some value

-- Each call moves on in the pattern or in the input, which bounds how deep they nest.
unfoldable pub glob_matches : Str → Str → Option Bool
glob_matches glob value =
    let pattern = chars glob in
    let input = chars value in
    matched (glob_at (suc (length pattern + length input)) pattern input 0 0 [])

-- `RetentionPolicyRecord`, with the fields that the plan reads.
pub record RetentionPolicy : Type 0 where
  pub project_id : Str
  pub keep_latest : ℕ
  pub path_glob : Option Str
  pub branch_glob : Option Str

unfoldable pub protected_path : Str → Bool
protected_path path =
    any (λ prefix. starts_with prefix path) (lit ".blobyard-preview/" ∷ lit ".blobyard-yard/" ∷ [])

-- `is_none_or` of a glob.
abbrev pub path_passes : Option Str → Str → Option Bool
path_passes none path = some true
path_passes (some glob) path = glob_matches glob path

abbrev pub branch_passes : Option Str → Option Str → Option Bool
branch_passes none branch = some true
branch_passes (some glob) none = some false
branch_passes (some glob) (some branch) = glob_matches glob branch

abbrev pub both : Option Bool → Option Bool → Option Bool
both none q = none
both (some a) none = none
both (some a) (some b) = some (a && b)

unfoldable pub policy_matches : RetentionPolicy → ObjectVersionRecord → Option Bool
policy_matches policy v =
    both (path_passes policy.path_glob v.object_path)
      (branch_passes policy.branch_glob v.git_branch)

-- `ORDER BY created_at_ms DESC, id DESC`: the first of two rows comes first.
unfoldable pub newer : ObjectVersionRecord → ObjectVersionRecord → Bool
newer v w =
    ltb w.created_at_ms v.created_at_ms
    || (v.created_at_ms == w.created_at_ms && not (str_lt v.id w.id))

unfoldable pub place : ObjectVersionRecord → List ObjectVersionRecord → List ObjectVersionRecord
place v [] = v ∷ []
place v (w ∷ rows) = let rest = place v rows in if newer v w then v ∷ w ∷ rows else w ∷ rest

-- `WHERE project_id = ?1 AND state = 'complete' ORDER BY …`.
unfoldable pub candidates : Str → List ObjectVersionRecord → List ObjectVersionRecord
candidates project [] = []
candidates project (v ∷ rows) =
    let rest = candidates project rows in
    if str_eq v.project_id project && is_complete v.state then place v rest else rest

abbrev pub add_matching :
    Option Bool
    → ObjectVersionRecord
    → Option (List ObjectVersionRecord)
    → Option (List ObjectVersionRecord)
add_matching none v rest = none
add_matching (some true) v none = none
add_matching (some true) v (some rest) = some (v ∷ rest)
add_matching (some false) v rest = rest

-- The loop of `matching_versions`.
unfoldable pub matching :
    RetentionPolicy → List ObjectVersionRecord → Option (List ObjectVersionRecord)
matching policy [] = some []
matching policy (v ∷ rows) =
    let rest = matching policy rows in
    if protected_path v.object_path then rest else add_matching (policy_matches policy v) v rest

unfoldable pub matching_versions :
    RetentionPolicy → List ObjectVersionRecord → Option (List ObjectVersionRecord)
matching_versions policy versions = matching policy (candidates policy.project_id versions)

abbrev pub past_kept : ℕ → Option (List ObjectVersionRecord) → Option (List ObjectVersionRecord)
past_kept n none = none
past_kept n (some rows) = some (drop n rows)

-- The versions that `begin` puts into the deletion plan: it skips the first `keep_latest`.
unfoldable pub planned :
    RetentionPolicy → List ObjectVersionRecord → Option (List ObjectVersionRecord)
planned policy versions = past_kept policy.keep_latest (matching_versions policy versions)
