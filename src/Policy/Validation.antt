-- ===== src/Policy/Validation.antt =====
-- What an accepted graph satisfies: `validate_graph` of
-- `crates/blobyard-core/src/application_policy.rs`.
use blobyard_core.Manifest.Patterns.{role_name, permission}
use blobyard_core.Policy.{
  RoleDefinition, Roles, PolicyGraph, Stop, rejected, maximum_policy_roles,
  maximum_direct_inherited, maximum_direct_permissions, has_cycle, unique, definition_valid,
  validate_definitions, validate_graph,
}
use blobyard_core.Policy.Reach.{IsCyclic, IsClosed}
use blobyard_core.Policy.Cycle.{has_cycle-eq-false}
use blobyard_core.Base.{
  ◌≤◌, ◌≡◌, refl, inl, inr, Bool, true, false, some, List, [], ◌∷◌, arith, if◌then◌else◌,
  Bool-cases, length, all, All, Str, str_eq, str_eq_iff, Result, ◌>>=◌, contains, lookup, has_key,
  has_key_of_lookup, ok, err,
}

-- What the loop has established of one entry.
abbrev IsChecked : Roles → (Str × RoleDefinition) → Type 0
IsChecked roles (name, d) =
    (definition_valid roles name d ≡ true) × (has_cycle name roles ≡ ok false)

bind_false :
    (cyclic : Result Bool Stop) (later : Result (Unit {0}) Stop)
    → (cyclic >>= (λ found. if found then err rejected else later)) ≡ ok tt
    → (cyclic ≡ ok false) × (later ≡ ok tt)
bind_false (ok true) later h = absurd (cc)
bind_false (ok false) later h = (refl, h)
bind_false (err e) later h = absurd (cc)

validate_definitions-All :
    (roles rest : Roles) → validate_definitions roles rest ≡ ok tt → All (IsChecked roles) rest
unfolding validate_definitions
validate_definitions-All roles [] h = tt
validate_definitions-All roles ((name, d) ∷ rest) h =
    elim (Bool-cases (definition_valid roles name d)) [
      | inl valid ↦
          let (acyclic, later) =
            bind_false (has_cycle name roles) (validate_definitions roles rest) (rw valid at h) in
          ((valid, acyclic), validate_definitions-All roles rest later)
      | inr invalid ↦ let stop : err rejected ≡ ok tt = rw invalid at h in absurd (cc)
    ]

-- What holds of every entry holds of the one that a lookup finds.
pub All-lookup :
    (P : Str → RoleDefinition → Type 0) (k : Str) (m : Roles) (v : RoleDefinition)
    → All (λ e. P e.0 e.1) m
    → lookup k m ≡ some v
    → P k v
unfolding lookup
All-lookup P k [] v h e = absurd (cc)
All-lookup P k ((j, w) ∷ m) v (p, h) e = elim (Bool-cases (str_eq k j)) [
  | inl same ↦ let w' : w ≡ v = ground arith in rw ((str_eq_iff k j).0 same) (rw w' at p)
  | inr other ↦ All-lookup P k m v h (rw other at e)
]

all-contains :
    (p : Str → Bool) (x : Str) (xs : List Str) → all p xs ≡ true → contains x xs ≡ true → p x ≡ true
unfolding contains
all-contains p x [] h c = absurd (cc)
all-contains p x (y ∷ ys) h c = elim (Bool-cases (str_eq x y)) [
  | inl same ↦ rw ((str_eq_iff x y).0 same) (ground arith)
  | inr other ↦ all-contains p x ys (ground arith) (ground arith)
]

-- One definition of an accepted graph.
pub record IsSound (roles : Roles) (name : Str) (d : RoleDefinition) : Type 0 where
  pub named : role_name name ≡ true
  pub few_inherited : length d.inherits ≤ maximum_direct_inherited
  pub few_permissions : length d.permissions ≤ maximum_direct_permissions
  pub distinct_inherited : unique d.inherits ≡ true
  pub distinct_permissions : unique d.permissions ≡ true
  pub declared : (x : Str) → contains x d.inherits ≡ true → has_key x roles ≡ true
  pub shaped : (p : Str) → contains p d.permissions ≡ true → permission p ≡ true
  pub acyclic : ¬ (IsCyclic roles name)

pub record IsAccepted (graph : PolicyGraph) : Type 0 where
  pub few_roles : length graph.roles ≤ maximum_policy_roles
  pub default_declared :
      (role : Str) → graph.default_role ≡ some role → has_key role graph.roles ≡ true
  pub closed : IsClosed graph.roles
  pub sound :
      (name : Str) (d : RoleDefinition)
      → lookup name graph.roles ≡ some d
      → IsSound graph.roles name d

module _ (roles : Roles) (checked : All (IsChecked roles) roles) where
  IsChecked-of_lookup :
      (name : Str) (d : RoleDefinition) → lookup name roles ≡ some d → IsChecked roles (name, d)
  IsChecked-of_lookup name d e = All-lookup (λ k v. IsChecked roles (k, v)) name roles d checked e

  IsClosed-of_checked : IsClosed roles
  unfolding definition_valid
  IsClosed-of_checked child parent e =
      let (valid, acyclic) = IsChecked-of_lookup child e.definition e.declared in
      all-contains (λ x. has_key x roles) parent e.definition.inherits (ground arith) e.listed

  IsSound-of_checked :
      (name : Str) (d : RoleDefinition) → lookup name roles ≡ some d → IsSound roles name d
  unfolding definition_valid
  IsSound-of_checked name d e =
      let (valid, acyclic) = IsChecked-of_lookup name d e in
      record {
        named = ground arith;
        few_inherited = ground arith;
        few_permissions = ground arith;
        distinct_inherited = ground arith;
        distinct_permissions = ground arith;
        declared = λ x. all-contains (λ y. has_key y roles) x d.inherits (ground arith);
        shaped = λ p. all-contains permission p d.permissions (ground arith);
        acyclic =
            has_cycle-eq-false roles name (has_key_of_lookup name roles d e)
              (IsChecked-of_lookup name d e).1;
      }

-- A graph that passes has at most 32 roles, a declared default, well-formed definitions within the
-- limits and without repeats, every inherited role declared, and no inheritance cycle.
pub validate_graph-IsAccepted :
    (graph : PolicyGraph) → validate_graph graph ≡ ok tt → IsAccepted graph
unfolding validate_graph
validate_graph-IsAccepted graph h =
    let definitions : validate_definitions graph.roles graph.roles ≡ ok tt = ground arith in
    let checked = validate_definitions-All graph.roles graph.roles definitions in
    record {
      few_roles = ground arith;
      default_declared = λ role e. ground arith;
      closed = IsClosed-of_checked graph.roles checked;
      sound = IsSound-of_checked graph.roles checked;
    }
