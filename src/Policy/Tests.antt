-- ===== src/Policy/Tests.antt =====
-- Runs of `crates/blobyard-core/src/application_policy.rs` on small role graphs.
use blobyard_core.Manifest.Patterns.{role_name, permission, dotted_identifier, identifier_part}
use blobyard_core.Policy.{
  RoleDefinition, Roles, PolicyGraph, panicked, index, edge_count, cycle_loop, has_cycle,
  closure_loop, inherited_closure, unique, definition_valid, validate_definitions, validate_graph,
  canonicalize_policy, CanonicalPolicy,
}
use blobyard_core.Policy.Reach.{Reaches, here, onward, Inherits, IsCyclic}
use blobyard_core.Policy.Closure.{inherited_closure-Reaches}
use blobyard_core.Policy.Cycle.{IsDecided, has_cycle-IsDecided}
use blobyard_core.Policy.Validation.{All-lookup, IsAccepted, validate_graph-IsAccepted}
use blobyard_core.Policy.Expansion.{HasEntry}
use blobyard_core.Policy.Canonical.{canonicalize_policy-HasEntry, validate_graph-panicked}
use blobyard_core.Base.{
  ◌≡◌, refl, ◌↔◌, true, false, none, some, List, [], ◌∷◌, arith, Str, lit, contains, has_key, ok,
  err, text_runs,
}

unfoldable policy_runs : Unit {0}
unfolding text_runs role_name permission dotted_identifier identifier_part index edge_count
    cycle_loop has_cycle closure_loop inherited_closure unique definition_valid validate_definitions
    validate_graph
policy_runs = tt

abbrev admin : Str
admin = lit "admin"

abbrev editor : Str
editor = lit "editor"

abbrev viewer : Str
viewer = lit "viewer"

abbrev team : Roles
team =
    (admin, record { inherits = editor ∷ []; permissions = lit "team.manage" ∷ [] })
    ∷ (editor, record { inherits = viewer ∷ []; permissions = lit "posts.write" ∷ [] })
    ∷ (viewer, record { inherits = []; permissions = lit "posts.read" ∷ [] })
    ∷ []

abbrev team_graph : PolicyGraph
team_graph = record { default_role = some viewer; roles = team }

team_valid : validate_graph team_graph ≡ ok tt
unfolding policy_runs
team_valid = refl

admin_closure : inherited_closure admin team ≡ ok (admin ∷ editor ∷ viewer ∷ [])
unfolding policy_runs
admin_closure = refl

admin_declared : has_key admin team ≡ true
unfolding policy_runs
admin_declared = refl

validate_graph-IsAccepted_example : IsAccepted team_graph
validate_graph-IsAccepted_example = validate_graph-IsAccepted team_graph team_valid

inherited_closure-Reaches_example :
    (result : List Str) × (inherited_closure admin team ≡ ok result)
    × ((x : Str) → (contains x result ≡ true) ↔ Reaches team admin x)
inherited_closure-Reaches_example =
    inherited_closure-Reaches team admin (validate_graph-IsAccepted team_graph team_valid).closed
      admin_declared

canonicalize_policy-HasEntry_example :
    (c : CanonicalPolicy) × (canonicalize_policy team_graph ≡ ok c)
    × ((name : Str) → has_key name team ≡ true → HasEntry team c.effective name)
canonicalize_policy-HasEntry_example = canonicalize_policy-HasEntry team_graph team_valid

-- Two roles that inherit each other.
abbrev loop_roles : Roles
loop_roles =
    (admin, record { inherits = editor ∷ []; permissions = [] })
    ∷ (editor, record { inherits = admin ∷ []; permissions = [] })
    ∷ []

loop_found : has_cycle admin loop_roles ≡ ok true
unfolding policy_runs
loop_found = refl

loop_declared : has_key admin loop_roles ≡ true
unfolding policy_runs
loop_declared = refl

has_cycle-IsDecided_example : IsDecided loop_roles admin (has_cycle admin loop_roles)
has_cycle-IsDecided_example = has_cycle-IsDecided loop_roles admin loop_declared

-- The second role inherits one that is not declared.
abbrev admin_role : RoleDefinition
admin_role = record { inherits = editor ∷ []; permissions = [] }

abbrev broken_rest : Roles
broken_rest = (editor, record { inherits = viewer ∷ []; permissions = [] }) ∷ []

abbrev broken : Roles
broken = (admin, admin_role) ∷ broken_rest

broken_edge : Inherits broken editor viewer
unfolding policy_runs
broken_edge = record {
  definition = record { inherits = viewer ∷ []; permissions = [] };
  declared = refl;
  listed = refl;
}

broken_path : Reaches broken admin editor
unfolding policy_runs
broken_path = onward here (record { definition = admin_role; declared = refl; listed = refl })

broken_acyclic : ¬ (IsCyclic broken admin)
unfolding policy_runs
broken_acyclic cycle =
    let free =
      All-lookup (λ k d. contains admin d.inherits ≡ false) cycle.last broken
        cycle.closes.definition (refl, (refl, tt)) cycle.closes.declared in
    let listed = cycle.closes.listed in absurd (cc)

broken_valid : definition_valid broken admin admin_role ≡ true
unfolding policy_runs
broken_valid = refl

broken_missing : has_key viewer broken ≡ false
unfolding policy_runs
broken_missing = refl

validate_graph-panicked_example :
    validate_graph (record { default_role = none; roles = broken }) ≡ err panicked
validate_graph-panicked_example =
    validate_graph-panicked none admin admin_role broken_rest editor viewer (omega arith) refl
      broken_valid broken_acyclic broken_path broken_edge broken_missing
