-- ===== src/Sqlite/Retention/Plan.antt =====
-- Which versions the retention plan of
-- `crates/blobyard-repository-sqlite/src/lifecycle_retention_plan.rs` chooses.
use blobyard_core.Contract.{UploadState, ObjectVersionRecord, is_complete}
use blobyard_core.Sqlite.Retention.{
  RetentionPolicy, protected_path, path_passes, branch_passes, policy_matches, newer, place,
  candidates, matching, matching_versions, planned,
}
use blobyard_core.Sqlite.Retention.Glob.{Matches, tokens}
use blobyard_core.Sqlite.Retention.Matcher.{glob_matches-Matches}
use blobyard_core.Sqlite.Retention.Newest.{IsNewestFirst, matching-IsNewestFirst}
use blobyard_core.Base.{
  ℕ, ◌≤◌, sum_by, ◌≡◌, refl, sym, ◌∙◌, ◌↔◌, ◌⊎◌, inl, inr, Bool, true, false, ◌&&◌, Option, none,
  some, List, [], ◌∷◌, arith, Bool-cases, drop, Any, Str, str_eq, str_eq_iff, str_eq_refl, chars,
}

-- A row stands in a list of rows.
abbrev pub In : ObjectVersionRecord → List ObjectVersionRecord → Type 0
In v rows = Any (λ (w : ObjectVersionRecord). w ≡ v) rows

-- What a glob that may be absent asks of a text, and of a text that may be absent.
abbrev pub PathMatches : Option Str → Str → Type 0
PathMatches none text = Unit {0}
PathMatches (some glob) text = Matches (tokens (chars glob)) (chars text)

abbrev pub BranchMatches : Option Str → Option Str → Type 0
BranchMatches none text = Unit {0}
BranchMatches (some glob) none = ⊥
BranchMatches (some glob) (some text) = Matches (tokens (chars glob)) (chars text)

-- A version that a policy may delete.
pub record IsEligible (policy : RetentionPolicy) (v : ObjectVersionRecord) : Type 0 where
  pub in_project : v.project_id ≡ policy.project_id
  pub completed : v.state ≡ UploadState.complete
  pub unprotected : protected_path v.object_path ≡ false
  pub path : PathMatches policy.path_glob v.object_path
  pub branch : BranchMatches policy.branch_glob v.git_branch

path_passes-PathMatches :
    (glob : Option Str) (text : Str)
    → (b : Bool) × (path_passes glob text ≡ some b) × ((b ≡ true) ↔ PathMatches glob text)
path_passes-PathMatches none text = (true, refl, (λ h. tt, λ h. refl))
path_passes-PathMatches (some glob) text = glob_matches-Matches glob text

branch_passes-BranchMatches :
    (glob text : Option Str)
    → (b : Bool) × (branch_passes glob text ≡ some b) × ((b ≡ true) ↔ BranchMatches glob text)
branch_passes-BranchMatches none text = (true, refl, (λ h. tt, λ h. refl))
branch_passes-BranchMatches (some glob) none = (false, refl, (λ h. absurd (cc), λ h. absurd h))
branch_passes-BranchMatches (some glob) (some text) = glob_matches-Matches glob text

policy_matches_iff :
    (policy : RetentionPolicy) (v : ObjectVersionRecord)
    → (b : Bool) × (policy_matches policy v ≡ some b)
      × ((b ≡ true) ↔ (
          PathMatches policy.path_glob v.object_path
          × BranchMatches policy.branch_glob v.git_branch))
unfolding policy_matches
policy_matches_iff policy v =
    let (a, ea, ia) = path_passes-PathMatches policy.path_glob v.object_path in
    let (b, eb, ib) = branch_passes-BranchMatches policy.branch_glob v.git_branch in
    (
      a && b,
      rw (ea, eb),
      (
        λ h. (ia.0 (ground arith), ib.0 (ground arith)),
        λ (p, q). let ha = ia.1 p in let hb = ib.1 q in ground arith,
      ),
    )

swap_first {ℓ κ μ ν} :
    {A : Type ℓ} {B : Type κ} {C : Type μ} {D : Type ν} → C ↔ (B ⊎ D) → (A ⊎ C) ↔ (B ⊎ (A ⊎ D))
swap_first {A = A} {B = B} {C = C} {D = D} (there, back) = (go, come)
  where
    go_rest : B ⊎ D → B ⊎ (A ⊎ D)
    go_rest (inl b) = inl b
    go_rest (inr d) = inr (inr d)

    go : A ⊎ C → B ⊎ (A ⊎ D)
    go (inl a) = inr (inl a)
    go (inr c) = go_rest (there c)

    come : B ⊎ (A ⊎ D) → A ⊎ C
    come (inl b) = inr (back (inl b))
    come (inr (inl a)) = inl a
    come (inr (inr d)) = inr (back (inr d))

In-place :
    (v w : ObjectVersionRecord) (rows : List ObjectVersionRecord)
    → In v (place w rows) ↔ ((w ≡ v) ⊎ In v rows)
unfolding place
In-place v w [] = (λ h. h, λ h. h)
In-place v w (x ∷ rows) = elim (Bool-cases (newer w x)) [
  | inl first ↦ rw first (λ h. h, λ h. h)
  | inr later ↦ rw later (swap_first (In-place v w rows))
]

-- The condition of the query.
abbrev IsListed : Str → ObjectVersionRecord → Type 0
IsListed project v = (v.project_id ≡ project) × (v.state ≡ UploadState.complete)

state_of_complete : (s : UploadState) → is_complete s ≡ true → s ≡ UploadState.complete
state_of_complete s h = ground arith

IsListed-of_test :
    (project : Str) (w : ObjectVersionRecord)
    → (str_eq w.project_id project && is_complete w.state) ≡ true
    → IsListed project w
IsListed-of_test project w h =
    ((str_eq_iff w.project_id project).0 (ground arith), state_of_complete w.state (ground arith))

test_of_listed :
    (project : Str) (w : ObjectVersionRecord)
    → IsListed project w
    → (str_eq w.project_id project && is_complete w.state) ≡ true
test_of_listed project w (p, q) = rw (p, q, str_eq_refl)

In-candidates :
    (project : Str) (v : ObjectVersionRecord) (rows : List ObjectVersionRecord)
    → In v (candidates project rows) ↔ (In v rows × IsListed project v)
unfolding candidates
In-candidates project v [] = (λ h. absurd h, λ (h, listed). absurd h)
In-candidates project v (w ∷ rows) =
    let (there, back) = In-candidates project v rows in
    elim (Bool-cases (str_eq w.project_id project && is_complete w.state)) [
      | inl listed ↦ rw listed (
        λ h. elim ((In-place v w (candidates project rows)).0 h) [
          | inl e ↦ (inl e, rw e at (IsListed-of_test project w listed))
          | inr r ↦ let (a, l) = there r in (inr a, l)
        ],
        λ (h, l). elim h [
          | inl e ↦ (In-place v w (candidates project rows)).1 (inl e)
          | inr r ↦ (In-place v w (candidates project rows)).1 (inr (back (r, l)))
        ],
      )
      | inr other ↦ rw other (
        λ h. let (a, l) = there h in (inr a, l),
        λ (h, l). elim h [
          | inl e ↦
              let accepted : (str_eq w.project_id project && is_complete w.state) ≡ true =
                test_of_listed project w (rw (sym e) at l) in
              absurd (cc)
          | inr r ↦ back (r, l)
        ],
      )
    ]

-- What the policy asks of a listed version.
abbrev IsChosen : RetentionPolicy → ObjectVersionRecord → Type 0
IsChosen policy v =
    (protected_path v.object_path ≡ false)
    × PathMatches policy.path_glob v.object_path
    × BranchMatches policy.branch_glob v.git_branch

matching-IsChosen :
    (policy : RetentionPolicy) (rows : List ObjectVersionRecord)
    → (chosen : List ObjectVersionRecord) × (matching policy rows ≡ some chosen)
      × ((v : ObjectVersionRecord) → In v chosen ↔ (In v rows × IsChosen policy v))
unfolding matching
matching-IsChosen policy [] = ([], refl, λ v. (λ h. absurd h, λ (h, c). absurd h))
matching-IsChosen policy (w ∷ rows) =
    let (chosen, returns, meaning) = matching-IsChosen policy rows in
    let (b, answers, iff) = policy_matches_iff policy w in
    elim (Bool-cases (protected_path w.object_path)) [
      | inl guarded ↦ (
        chosen,
        rw guarded returns,
        λ v. skip v w rows chosen (meaning v) λ c. let bad : true ≡ false = sym guarded ∙ c.0 in cc,
      )
      | inr free ↦ elim (Bool-cases b) [
        | inl accepted ↦ (
          w ∷ chosen,
          rw (free, answers, accepted, returns),
          λ v. add v w rows chosen (meaning v) (let (p, q) = iff.0 accepted in (free, p, q)),
        )
        | inr declined ↦ (
          chosen,
          rw (free, answers, declined) returns,
          λ v. skip v w rows chosen (meaning v) λ (f, p, q). let accepted = iff.1 (p, q) in cc,
        )
      ]
    ]
  where
    skip :
        (v w : ObjectVersionRecord) (rows chosen : List ObjectVersionRecord)
        → In v chosen ↔ (In v rows × IsChosen policy v)
        → ¬ (IsChosen policy w)
        → In v chosen ↔ (In v (w ∷ rows) × IsChosen policy v)
    skip v w rows chosen (there, back) refused = (
      λ h. let (a, c) = there h in (inr a, c),
      λ (h, c). elim h [ inl e ↦ absurd (refused (rw (sym e) at c)) | inr r ↦ back (r, c) ],
    )

    add :
        (v w : ObjectVersionRecord) (rows chosen : List ObjectVersionRecord)
        → In v chosen ↔ (In v rows × IsChosen policy v)
        → IsChosen policy w
        → In v (w ∷ chosen) ↔ (In v (w ∷ rows) × IsChosen policy v)
    add v w rows chosen (there, back) c = (
      λ h. elim h [ inl e ↦ (inl e, rw e at c) | inr r ↦ let (a, d) = there r in (inr a, d) ],
      λ (h, d). elim h [ inl e ↦ inl e | inr r ↦ inr (back (r, d)) ],
    )

-- The plan is always made. The matching versions are exactly the eligible ones among those that
-- are stored, none more often than it is stored, the youngest first and those of the same age by
-- their identifiers downwards; the plan is what follows the first `keep_latest` of them.
pub planned-IsEligible :
    (policy : RetentionPolicy) (versions : List ObjectVersionRecord)
    → (rows : List ObjectVersionRecord) × (matching_versions policy versions ≡ some rows)
      × ((v : ObjectVersionRecord) → In v rows ↔ (In v versions × IsEligible policy v))
      × ((w : ObjectVersionRecord → ℕ) → sum_by w rows ≤ sum_by w versions)
      × IsNewestFirst rows
      × (planned policy versions ≡ some (drop policy.keep_latest rows))
unfolding matching_versions planned
planned-IsEligible policy versions =
    let (rows, returns, meaning) =
      matching-IsChosen policy (candidates policy.project_id versions) in
    let (ordered, counts) = matching-IsNewestFirst policy versions rows returns in
    (
      rows,
      returns,
      λ v. (
        λ h.
            let (listed, (free, p, q)) = (meaning v).0 h in
            let (stored, (project, state)) =
              (In-candidates policy.project_id v versions).0 listed in
            (
              stored,
              record {
                in_project = project;
                completed = state;
                unprotected = free;
                path = p;
                branch = q;
              },
            ),
        λ (stored, e). (meaning v).1 (
          (In-candidates policy.project_id v versions).1 (stored, (e.in_project, e.completed)),
          (e.unprotected, e.path, e.branch),
        ),
      ),
      counts,
      ordered,
      rw returns,
    )
