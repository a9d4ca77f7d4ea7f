-- ===== src/Policy/Reach.antt =====
-- Inheritance as a relation, and the bound on the work of the two loops of
-- `crates/blobyard-core/src/application_policy.rs`.
use blobyard_core.Policy.{RoleDefinition, Roles, edge_count, extend}
use blobyard_core.Base.{
  ℕ, ◌+◌, ◌≤◌, ◌≡◌, refl, ap, ◌∙◌, inl, inr, true, false, ◌||◌, some, List, [], ◌∷◌, reverse,
  reverse-cons, arith, if◌then◌else◌, Bool-cases, length, length-append, Str, str_eq, str_eq_iff,
  contains, set_insert, lookup, has_key, contains-append, contains-reverse, contains-set_insert,
}

-- `parent` stands in the list of `child`.
pub record Inherits (roles : Roles) (child parent : Str) : Type 0 where
  pub definition : RoleDefinition
  pub declared : lookup child roles ≡ some definition
  pub listed : contains parent definition.inherits ≡ true

-- One role inherits another in any number of steps, none included.
pub data Reaches (roles : Roles) (start : Str) : Str → Type 0 where
  here : Reaches roles start start
  onward :
      {middle end : Str}
      → Reaches roles start middle
      → Inherits roles middle end
      → Reaches roles start end

-- At least one step leads from a role back to itself.
pub record IsCyclic (roles : Roles) (name : Str) : Type 0 where
  pub last : Str
  pub path : Reaches roles name last
  pub closes : Inherits roles last name

-- Every inherited role is declared.
abbrev pub IsClosed : Roles → Type 0
IsClosed roles = (child parent : Str) → Inherits roles child parent → has_key parent roles ≡ true

pub contains-extend :
    (x : Str) (inherits pending : List Str)
    → contains x (extend inherits pending) ≡ (contains x inherits || contains x pending)
contains-extend x inherits pending =
    contains-append x (reverse inherits) pending
    ∙ ap (λ b. b || contains x pending) (contains-reverse x inherits)

length-reverse : (xs : List Str) → length (reverse xs) ≡ length xs
length-reverse [] = refl
length-reverse (x ∷ xs) =
    ap length (reverse-cons x xs)
    ∙ omega (arith, length-append (reverse xs) (x ∷ []), length-reverse xs)

pub length-extend :
    (inherits pending : List Str)
    → length (extend inherits pending) ≡ length inherits + length pending
length-extend inherits pending =
    omega (arith, length-append (reverse inherits) pending, length-reverse inherits)

-- The edges of the roles that no loop has taken up yet.
unfoldable pub todo : Roles → List Str → ℕ
todo [] found = 0
todo ((name, definition) ∷ roles) found =
    (if contains name found then 0 else length definition.inherits) + todo roles found

pub todo-le-edge_count : (roles : Roles) (found : List Str) → todo roles found ≤ edge_count roles
unfolding todo edge_count
todo-le-edge_count [] found = omega arith
todo-le-edge_count ((name, definition) ∷ roles) found =
    ground (arith, todo-le-edge_count roles found)

todo-set_insert_le :
    (roles : Roles) (c : Str) (found : List Str)
    → todo roles (set_insert c found) ≤ todo roles found
unfolding todo
todo-set_insert_le [] c found = omega arith
todo-set_insert_le ((name, definition) ∷ roles) c found =
    ground (arith, contains-set_insert name c found, todo-set_insert_le roles c found)

-- Taking up a new role uses up its edges.
pub todo-set_insert :
    (roles : Roles) (c : Str) (found : List Str) (definition : RoleDefinition)
    → lookup c roles ≡ some definition
    → contains c found ≡ false
    → length definition.inherits + todo roles (set_insert c found) ≤ todo roles found
unfolding todo lookup
todo-set_insert [] c found definition e h = absurd (cc)
todo-set_insert ((name, d) ∷ roles) c found definition e h = elim (Bool-cases (str_eq c name)) [
  | inl same ↦
      let s : c ≡ name = (str_eq_iff c name).0 same in
      let d' : d ≡ definition = ground arith in
      let l : length d.inherits ≡ length definition.inherits =
        ap (λ (r : RoleDefinition). length r.inherits) d' in
      let f : contains name found ≡ false = rw s at h in
      let g : contains name (set_insert c found) ≡ true =
        ground (arith, contains-set_insert name c found, str_eq_iff name c) in
      rw (f, g) (omega (arith, todo-set_insert_le roles c found))
  | inr other ↦ ground (
    arith,
    contains-set_insert name c found,
    todo-set_insert roles c found definition,
    str_eq_iff name c,
    str_eq_iff c name,
  )
]
