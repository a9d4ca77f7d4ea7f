-- ===== src/Policy/Canonical.antt =====
-- `canonicalize_application_policy` of `crates/blobyard-core/src/application_policy.rs`: sorting
-- the direct arrays changes no inheritance and no permission, and the precomputed closure is that
-- of the graph which was given.
use mathlib.Core.Option
use blobyard_core.Policy.{
  RoleDefinition, Roles, PolicyGraph, CanonicalPolicy, panicked, sort_definition,
  canonicalize_direct_arrays, validate_graph, validate_definitions, definition_valid,
  maximum_policy_roles, has_cycle, canonicalize_policy,
}
use blobyard_core.Policy.Reach.{Inherits, Reaches, here, onward, IsCyclic, IsClosed}
use blobyard_core.Policy.Cycle.{IsDecided, has_cycle-IsDecided}
use blobyard_core.Policy.Validation.{validate_graph-IsAccepted}
use blobyard_core.Policy.Expansion.{Grants, IsAuthority, HasEntry, expand-HasEntry}
use blobyard_core.Base.{
  ◌≤◌, ◌≡◌, refl, sym, ap, ◌∙◌, inl, inr, true, false, not, Option, none, some, List, [], ◌∷◌,
  arith, Bool-cases, Option-cases, length, Str, str_eq, str_eq_refl, contains, lookup, has_key,
  contains-sort, is_some_and, ok, err,
}

lookup-canonicalize :
    (name : Str) (roles : Roles)
    → lookup name (canonicalize_direct_arrays roles)
      ≡ Option.map sort_definition (lookup name roles)
unfolding canonicalize_direct_arrays lookup
lookup-canonicalize name [] = refl
lookup-canonicalize name ((k, d) ∷ roles) = elim (Bool-cases (str_eq name k)) [
  | inl same ↦ rw same
  | inr other ↦ rw other (lookup-canonicalize name roles)
]

has_key-canonicalize :
    (name : Str) (roles : Roles)
    → has_key name (canonicalize_direct_arrays roles) ≡ has_key name roles
unfolding canonicalize_direct_arrays has_key
has_key-canonicalize name [] = refl
has_key-canonicalize name ((k, d) ∷ roles) = rw (has_key-canonicalize name roles)

module _ (roles : Roles) where
  -- A definition of the sorted graph is that of the given one, sorted.
  source_definition :
      (name : Str) (d : RoleDefinition)
      → lookup name (canonicalize_direct_arrays roles) ≡ some d
      → (given : RoleDefinition) × (lookup name roles ≡ some given) × (sort_definition given ≡ d)
  source_definition name d e = elim (Option-cases (lookup name roles)) [
    | inl unknown ↦ let bad : none ≡ some d = rw (← e, lookup-canonicalize, unknown) in absurd (cc)
    | inr (given, found) ↦
        let same : some (sort_definition given) ≡ some d = rw (← e, lookup-canonicalize, found) in
        (given, found, cc)
  ]

  sorted_lookup :
      (name : Str) (d : RoleDefinition)
      → lookup name roles ≡ some d
      → lookup name (canonicalize_direct_arrays roles) ≡ some (sort_definition d)
  sorted_lookup name d e = rw (lookup-canonicalize, e)

  Inherits-sorted :
      {child parent : Str}
      → Inherits roles child parent
      → Inherits (canonicalize_direct_arrays roles) child parent
  unfolding sort_definition
  Inherits-sorted {child} {parent} e = record {
    definition = sort_definition e.definition;
    declared = sorted_lookup child e.definition e.declared;
    listed = contains-sort parent e.definition.inherits ∙ e.listed;
  }

  Inherits-given :
      {child parent : Str}
      → Inherits (canonicalize_direct_arrays roles) child parent
      → Inherits roles child parent
  unfolding sort_definition
  Inherits-given {child} {parent} e =
      let (given, found, same) = source_definition child e.definition e.declared in
      record {
        definition = given;
        declared = found;
        listed =
            sym (contains-sort parent given.inherits)
            ∙ ap (λ (r : RoleDefinition). contains parent r.inherits) same
            ∙ e.listed;
      }

  Reaches-sorted : {a b : Str} → Reaches roles a b → Reaches (canonicalize_direct_arrays roles) a b
  Reaches-sorted here = here
  Reaches-sorted (onward p e) = onward (Reaches-sorted p) (Inherits-sorted e)

  Reaches-given : {a b : Str} → Reaches (canonicalize_direct_arrays roles) a b → Reaches roles a b
  Reaches-given here = here
  Reaches-given (onward p e) = onward (Reaches-given p) (Inherits-given e)

  Grants-sorted :
      {role p : Str} → Grants roles role p → Grants (canonicalize_direct_arrays roles) role p
  unfolding sort_definition
  Grants-sorted {role} {p} g = record {
    definition = sort_definition g.definition;
    declared = sorted_lookup role g.definition g.declared;
    listed = contains-sort p g.definition.permissions ∙ g.listed;
  }

  Grants-given :
      {role p : Str} → Grants (canonicalize_direct_arrays roles) role p → Grants roles role p
  unfolding sort_definition
  Grants-given {role} {p} g =
      let (given, found, same) = source_definition role g.definition g.declared in
      record {
        definition = given;
        declared = found;
        listed =
            sym (contains-sort p given.permissions)
            ∙ ap (λ (r : RoleDefinition). contains p r.permissions) same
            ∙ g.listed;
      }

  IsClosed-sorted : IsClosed roles → IsClosed (canonicalize_direct_arrays roles)
  IsClosed-sorted closed child parent e =
      has_key-canonicalize parent roles ∙ closed child parent (Inherits-given e)

  IsAuthority-given :
      (name : Str) (held granted : List Str)
      → IsAuthority (canonicalize_direct_arrays roles) name held granted
      → IsAuthority roles name held granted
  IsAuthority-given name held granted a = record {
    reaches =
        λ x. (λ h. Reaches-given ((a.reaches x).0 h), λ p. (a.reaches x).1 (Reaches-sorted p));
    entitled = λ p. (
      λ h. let (r, path, g) = (a.entitled p).0 h in (r, Reaches-given path, Grants-given g),
      λ (r, path, g). (a.entitled p).1 (r, Reaches-sorted path, Grants-sorted g),
    );
  }

-- A graph that passes validation is canonicalized. For each declared role the closure lists
-- exactly the roles that it reaches in the given graph, and exactly the permissions of those.
pub canonicalize_policy-HasEntry :
    (graph : PolicyGraph)
    → validate_graph graph ≡ ok tt
    → (c : CanonicalPolicy) × (canonicalize_policy graph ≡ ok c)
      × ((name : Str) → has_key name graph.roles ≡ true → HasEntry graph.roles c.effective name)
unfolding canonicalize_policy
canonicalize_policy-HasEntry graph valid =
    let sorted = canonicalize_direct_arrays graph.roles in
    let closed = (validate_graph-IsAccepted graph valid).closed in
    let (e, expanded, entries) = expand-HasEntry sorted (IsClosed-sorted graph.roles closed) in
    (
      record { graph = record graph { roles = sorted }; effective = e },
      rw (valid, expanded),
      λ name declared.
          let entry = entries name (has_key-canonicalize name graph.roles ∙ declared) in
          record {
            held = entry.held;
            granted = entry.granted;
            role_entry = entry.role_entry;
            permission_entry = entry.permission_entry;
            authority = IsAuthority-given graph.roles name entry.held entry.granted entry.authority;
          },
    )

-- Where the search meets a missing map key, the answer is neither yes nor no.
panicked_of_IsDecided :
    (roles : Roles) (name m z : Str)
    → IsDecided roles name (has_cycle name roles)
    → ¬ (IsCyclic roles name)
    → Reaches roles name m
    → Inherits roles m z
    → has_key z roles ≡ false
    → has_cycle name roles ≡ err panicked
panicked_of_IsDecided roles name m z (IsDecided.cyclic e c) free path edge missing = absurd (free c)
panicked_of_IsDecided roles name m z (IsDecided.acyclic e c grounded) free path edge missing =
    let declared = grounded m z path edge in absurd (cc)
panicked_of_IsDecided roles name m z (IsDecided.dangling end e p w) free path edge missing = e

-- Validation does not return where the first role of a graph with a declared default and few
-- enough roles passes its own tests, is on no cycle, and inherits, through some declared role, a
-- role that is not declared: it panics at the missing map key.
pub validate_graph-panicked :
    (default : Option Str) (name : Str) (d : RoleDefinition) (rest : Roles) (m z : Str)
    → let roles = (name, d) ∷ rest in
      let graph : PolicyGraph = record { default_role = default; roles = roles } in
      length roles ≤ maximum_policy_roles
      → is_some_and default (λ role. not (has_key role roles)) ≡ false
      → definition_valid roles name d ≡ true
      → ¬ (IsCyclic roles name)
      → Reaches roles name m
      → Inherits roles m z
      → has_key z roles ≡ false
      → validate_graph graph ≡ err panicked
unfolding validate_graph validate_definitions
validate_graph-panicked default name d rest m z few default_known valid free path edge missing =
    let roles : Roles = (name, d) ∷ rest in
    let panics : has_cycle name roles ≡ err panicked =
      panicked_of_IsDecided roles name m z
        (has_cycle-IsDecided roles name (declared_first name d rest)) free path edge missing in
    rw (panics, valid, default_known) (ground arith)
  where
    declared_first : (n : Str) (e : RoleDefinition) (r : Roles) → has_key n ((n, e) ∷ r) ≡ true
    declared_first n e r = unfold has_key in ground (arith, str_eq_refl n)
