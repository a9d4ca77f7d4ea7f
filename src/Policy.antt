-- ===== src/Policy.antt =====
-- The application-role graph of `crates/blobyard-core/src/application_policy.rs`: its data, its
-- validation and the precomputed inheritance closure. A `Vec` used as a stack is a list with its
-- last item at the head.
pub mod Reach
pub mod Closure
pub mod Cycle
pub mod Validation
pub mod Expansion
pub mod Canonical
pub mod Tests
use blobyard_core.Manifest.Patterns.{role_name, permission}
use blobyard_core.Base.{
  ℕ, zero, suc, ◌+◌, ◌-◌, ◌*◌, ◌/◌, ◌%◌, ◌^◌, ◌≤◌, ◌<◌, min, max, ◌≡◌, refl, sym, ap, ◌∙◌, ◌≡⟨◌⟩◌,
  ◌∎, ◌≢◌, ◌↔◌, ◌⊎◌, inl, inr, Bool, true, false, not, ◌&&◌, ◌||◌, Option, none, some, List, [],
  ◌∷◌, ◌++◌, map, reverse, arith, ltb, leb, ◌==◌, if◌then◌else◌, ltb→lt, lt→ltb, leb→le, le→leb,
  ==_iff, tests, Bool-cases, Option-cases, length, is_empty, get_elem?, take, drop, all, any, keep,
  find?, length-append, All, Any, Str, lit, str_eq, str_eq_iff, str_eq_refl, str_lt, add_first,
  split, strip_prefix, is_digit, is_lower, is_upper, is_alphabetic, is_alphanumeric, Result, ◌>>=◌,
  ◌>>◌, guard, ok_or, chars, is_control, is_whitespace, has_control, is_utf8, contains, set_insert,
  to_set, sort, lookup, has_key, contains-append, contains-reverse, contains-set_insert,
  contains-to_set, contains-sort, has_key_iff, first_is, last_is, split_once, rsplit_once,
  strip_suffix, starts_with, ends_with, is_some_and, is_none_or, one_of, ok, err,
}

pub record RoleDefinition : Type 0 where
  pub inherits : List Str
  pub permissions : List Str

abbrev pub Roles : Type 0
Roles = List (Str × RoleDefinition)

pub record PolicyGraph : Type 0 where
  pub default_role : Option Str
  pub roles : Roles

pub record EffectivePolicy : Type 0 where
  pub effective_roles : List (Str × List Str)
  pub effective_permissions : List (Str × List Str)

pub record CanonicalPolicy : Type 0 where
  pub graph : PolicyGraph
  pub effective : EffectivePolicy

-- `rejected` is `ApplicationPolicyError`; `panicked` is the panic of `graph.roles[name]` at a
-- missing key; `out_of_fuel` is of the model alone.
pub data Stop : Type 0 where
  rejected panicked out_of_fuel : Stop

abbrev pub maximum_policy_roles : ℕ
maximum_policy_roles = 32

abbrev pub maximum_direct_inherited : ℕ
maximum_direct_inherited = 8

abbrev pub maximum_direct_permissions : ℕ
maximum_direct_permissions = 64

-- `graph.roles[name]`.
unfoldable pub index : Str → Roles → Result RoleDefinition Stop
index name roles = ok_or (lookup name roles) panicked

-- `pending.extend(inherits)` on the stack.
abbrev pub extend : List Str → List Str → List Str
extend inherits pending = reverse inherits ++ pending

-- The number of inheritance edges, which bounds how often a loop pushes.
unfoldable pub edge_count : Roles → ℕ
edge_count [] = 0
edge_count ((name, definition) ∷ roles) = length definition.inherits + edge_count roles

abbrev pub loop_fuel : Roles → List Str → ℕ
loop_fuel roles pending = suc (edge_count roles + length pending)

unfoldable pub cycle_loop : ℕ → Str → Roles → (visited pending : List Str) → Result Bool Stop
cycle_loop zero origin roles visited pending = err out_of_fuel
cycle_loop (suc fuel) origin roles visited [] = ok false
cycle_loop (suc fuel) origin roles visited (candidate ∷ pending) =
    let again = cycle_loop fuel origin roles visited pending in
    let onward = λ (definition : RoleDefinition).
      cycle_loop fuel origin roles (set_insert candidate visited)
        (extend definition.inherits pending) in
    if str_eq candidate origin
    then ok true
    else if contains candidate visited
    then again
    else index candidate roles >>= onward

unfoldable pub has_cycle : Str → Roles → Result Bool Stop
has_cycle origin roles = do
  definition ← index origin roles
  let pending = reverse definition.inherits
  cycle_loop (loop_fuel roles pending) origin roles [] pending

unfoldable pub closure_loop : ℕ → Roles → (found pending : List Str) → Result (List Str) Stop
closure_loop zero roles found pending = err out_of_fuel
closure_loop (suc fuel) roles found [] = ok found
closure_loop (suc fuel) roles found (candidate ∷ pending) =
    let again = closure_loop fuel roles found pending in
    let onward = λ (definition : RoleDefinition).
      closure_loop fuel roles (set_insert candidate found) (extend definition.inherits pending) in
    if contains candidate found then again else index candidate roles >>= onward

unfoldable pub inherited_closure : Str → Roles → Result (List Str) Stop
inherited_closure name roles = do
  definition ← index name roles
  let pending = reverse definition.inherits
  closure_loop (loop_fuel roles pending) roles (name ∷ []) pending

unfoldable pub unique : List Str → Bool
unique values = length (to_set values) == length values

-- The tests of one definition that stand before `has_cycle` in its condition.
unfoldable pub definition_valid : Roles → Str → RoleDefinition → Bool
definition_valid roles name definition =
    role_name name
    && leb (length definition.inherits) maximum_direct_inherited
    && leb (length definition.permissions) maximum_direct_permissions
    && unique definition.inherits
    && unique definition.permissions
    && all (λ inherited. has_key inherited roles) definition.inherits
    && all permission definition.permissions

-- The loop of `validate_graph` over the entries that are left.
unfoldable pub validate_definitions : Roles → Roles → Result (Unit {0}) Stop
validate_definitions roles [] = ok tt
validate_definitions roles ((name, definition) ∷ rest) =
    let later = validate_definitions roles rest in
    let cyclic = has_cycle name roles in
    if definition_valid roles name definition
    then cyclic >>= (λ found. if found then err rejected else later)
    else err rejected

unfoldable pub validate_graph : PolicyGraph → Result (Unit {0}) Stop
validate_graph graph =
    if ltb maximum_policy_roles (length graph.roles)
      || is_some_and graph.default_role (λ role. not (has_key role graph.roles))
    then err rejected
    else validate_definitions graph.roles graph.roles

unfoldable pub sort_definition : RoleDefinition → RoleDefinition
sort_definition definition = record {
  inherits = sort definition.inherits;
  permissions = sort definition.permissions;
}

unfoldable pub canonicalize_direct_arrays : Roles → Roles
canonicalize_direct_arrays [] = []
canonicalize_direct_arrays ((name, definition) ∷ roles) =
    (name, sort_definition definition) ∷ canonicalize_direct_arrays roles

-- `roles.iter().flat_map(..)`: the permissions of each listed role in turn.
unfoldable pub gather_permissions : List Str → Roles → Result (List Str) Stop
gather_permissions [] roles = ok []
gather_permissions (role ∷ rest) roles = do
  definition ← index role roles
  others ← gather_permissions rest roles
  ok (definition.permissions ++ others)

pub record RoleAuthority : Type 0 where
  pub held : List Str
  pub granted : List Str

-- One round of the loop of `expand`.
unfoldable pub role_authority : Str → Roles → Result RoleAuthority Stop
role_authority name roles = do
  held ← inherited_closure name roles
  granted ← gather_permissions held roles
  ok (record { held = held; granted = to_set granted })

-- The loop over the keys. They come in ascending order, so that each insertion is at the end.
unfoldable pub expand_keys : Roles → Roles → Result EffectivePolicy Stop
expand_keys roles [] = ok (record { effective_roles = []; effective_permissions = [] })
expand_keys roles ((name, definition) ∷ rest) = do
  authority ← role_authority name roles
  others ← expand_keys roles rest
  ok (record {
    effective_roles = (name, authority.held) ∷ others.effective_roles;
    effective_permissions = (name, authority.granted) ∷ others.effective_permissions;
  })

unfoldable pub expand : Roles → Result EffectivePolicy Stop
expand roles = expand_keys roles roles

unfoldable pub canonicalize_policy : PolicyGraph → Result CanonicalPolicy Stop
canonicalize_policy graph = do
  validate_graph graph
  let sorted = canonicalize_direct_arrays graph.roles
  effective ← expand sorted
  ok (record { graph = record graph { roles = sorted }; effective = effective })
