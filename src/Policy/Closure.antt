-- ===== src/Policy/Closure.antt =====
-- `inherited_closure` of `crates/blobyard-core/src/application_policy.rs` returns the roles that
-- the name reaches.
use blobyard_core.Policy.{
  RoleDefinition, Roles, index, loop_fuel, extend, closure_loop, inherited_closure,
}
use blobyard_core.Policy.Reach.{
  Inherits, Reaches, here, onward, IsClosed, contains-extend, length-extend, todo,
  todo-le-edge_count, todo-set_insert,
}
use blobyard_core.Base.{
  ℕ, zero, suc, ◌+◌, ◌<◌, ◌≡◌, refl, sym, ◌∙◌, ◌↔◌, ◌⊎◌, inl, inr, true, false, some, List, [], ◌∷◌,
  reverse, arith, Bool-cases, length, Str, str_eq, str_eq_iff, str_eq_refl, contains, set_insert,
  lookup, has_key, contains-reverse, contains-set_insert, has_key_iff, ok,
}

pub Reaches-trans :
    {roles : Roles} {a b c : Str} → Reaches roles a b → Reaches roles b c → Reaches roles a c
Reaches-trans p here = p
Reaches-trans p (onward q e) = onward (Reaches-trans p q) e

pub index-eq-ok :
    (name : Str) (roles : Roles) (d : RoleDefinition)
    → lookup name roles ≡ some d
    → index name roles ≡ ok d
unfolding index
index-eq-ok name roles d e = rw e

-- Two lookups of one key give one value.
pub listed_of_lookup :
    {roles : Roles} {child parent : Str} (d : RoleDefinition)
    → Inherits roles child parent
    → lookup child roles ≡ some d
    → contains parent d.inherits ≡ true
listed_of_lookup {child} {parent} d h e =
    let same : h.definition ≡ d = cc (h.declared, e) in rw same at h.listed

-- What the loop returns, in terms of where it started.
pub record IsExplored (roles : Roles) (found pending result : List Str) : Type 0 where
  pub kept : (x : Str) → contains x found ≡ true → contains x result ≡ true
  pub taken : (x : Str) → contains x pending ≡ true → contains x result ≡ true
  pub sound :
      (x : Str)
      → contains x result ≡ true
      → (contains x found ≡ true) ⊎ ((y : Str) × (contains y pending ≡ true) × Reaches roles y x)
  pub closed :
      (x z : Str)
      → contains x result ≡ true
      → contains x found ≡ false
      → Inherits roles x z
      → contains z result ≡ true

pub IsExplored-nil : (roles : Roles) (found : List Str) → IsExplored roles found [] found
unfolding contains
IsExplored-nil roles found = record {
  kept = λ x h. h;
  taken = λ x h. absurd (cc);
  sound = λ x h. inl h;
  closed = λ x z h f e. absurd (cc);
}

-- A candidate that was already found is dropped.
pub IsExplored-again :
    {roles : Roles} {found pending result : List Str} (c : Str)
    → contains c found ≡ true
    → IsExplored roles found pending result
    → IsExplored roles found (c ∷ pending) result
unfolding contains
IsExplored-again {found} c old e = record {
  kept = e.kept;
  taken = λ x h. elim (Bool-cases (str_eq x c)) [
    | inl same ↦ e.kept x (rw ((str_eq_iff x c).0 same) old)
    | inr other ↦ e.taken x (rw other at h)
  ];
  sound = λ x h. elim (e.sound x h) [ inl f ↦ inl f | inr (y, p, r) ↦ inr (y, ground arith, r) ];
  closed = e.closed;
}

-- A new candidate is found, and its parents wait.
pub IsExplored-new :
    {roles : Roles} {found pending result : List Str} (c : Str) (d : RoleDefinition)
    → lookup c roles ≡ some d
    → IsExplored roles (set_insert c found) (extend d.inherits pending) result
    → IsExplored roles found (c ∷ pending) result
unfolding contains
IsExplored-new {roles} {found} {pending} c d declared e = record {
  kept = λ x h. e.kept x (ground (arith, contains-set_insert x c found));
  taken = λ x h. elim (Bool-cases (str_eq x c)) [
    | inl same ↦ e.kept x (ground (arith, contains-set_insert x c found))
    | inr other ↦ e.taken x (ground (arith, contains-extend x d.inherits pending))
  ];
  sound = λ x h. elim (e.sound x h) [
    | inl f ↦ elim (Bool-cases (str_eq x c)) [
      | inl same ↦ inr (c, ground (arith, str_eq_refl c), rw ((str_eq_iff x c).0 same) here)
      | inr other ↦ inl (ground (arith, contains-set_insert x c found))
    ]
    | inr (y, p, r) ↦ elim (Bool-cases (contains y d.inherits)) [
      | inl parent ↦ inr (
        c,
        ground (arith, str_eq_refl c),
        Reaches-trans
            (onward here (record { definition = d; declared = declared; listed = parent })) r,
      )
      | inr waits ↦ inr (y, ground (arith, contains-extend y d.inherits pending), r)
    ]
  ];
  closed = λ x z h f edge. elim (Bool-cases (str_eq x c)) [
    | inl same ↦ e.taken z (
        rw contains-extend
          (rw (listed_of_lookup d edge (rw ((str_eq_iff x c).0 same) declared)) refl))
    | inr other ↦ e.closed x z h (ground (arith, contains-set_insert x c found)) edge
  ];
}

-- With enough fuel, in a graph whose inherited roles are all declared, the loop returns.
closure_loop-IsExplored :
    (fuel : ℕ) (roles : Roles) (found pending : List Str)
    → IsClosed roles
    → ((x : Str) → contains x pending ≡ true → has_key x roles ≡ true)
    → todo roles found + length pending < fuel
    → (result : List Str) × (closure_loop fuel roles found pending ≡ ok result)
      × IsExplored roles found pending result
unfolding closure_loop contains
closure_loop-IsExplored zero roles found pending closed known enough = absurd (omega arith)
closure_loop-IsExplored (suc fuel) roles found [] closed known enough =
    (found, refl, IsExplored-nil roles found)
closure_loop-IsExplored (suc fuel) roles found (c ∷ pending) closed known enough =
    elim (Bool-cases (contains c found)) [
      | inl old ↦
          let (result, returns, explored) =
            closure_loop-IsExplored fuel roles found pending closed (λ x h. known x (ground arith))
              (omega arith) in
          (result, rw old returns, IsExplored-again c old explored)
      | inr new ↦
          let (d, declared) = has_key_iff c roles (known c (ground (arith, str_eq_refl c))) in
          let (result, returns, explored) =
            closure_loop-IsExplored fuel roles (set_insert c found) (extend d.inherits pending)
              closed
              (λ x h. elim (Bool-cases (contains x d.inherits)) [
                | inl parent ↦
                    closed c x (record { definition = d; declared = declared; listed = parent })
                | inr waits ↦ known x (ground (arith, contains-extend x d.inherits pending))
              ])
              (omega (
                arith,
                todo-set_insert roles c found d declared new,
                length-extend d.inherits pending,
              )) in
          (
            result,
            rw (new, index-eq-ok c roles d declared) returns,
            IsExplored-new c d declared explored,
          )
    ]

-- The parents of a declared name.
pub parent_of_listed :
    {roles : Roles} (name x : Str) (d : RoleDefinition)
    → lookup name roles ≡ some d
    → contains x (reverse d.inherits) ≡ true
    → Inherits roles name x
parent_of_listed name x d found h = record {
  definition = d;
  declared = found;
  listed = sym (contains-reverse x d.inherits) ∙ h;
}

-- The loop started from one name and its parents.
module _ {roles : Roles} {result : List Str} (name : Str) (d : RoleDefinition)
    (found : lookup name roles ≡ some d)
    (explored : IsExplored roles (name ∷ []) (reverse d.inherits) result) where
  explored_sound : (x : Str) → contains x result ≡ true → Reaches roles name x
  unfolding contains
  explored_sound x h = elim (explored.sound x h) [
    | inl start ↦ rw ((str_eq_iff x name).0 (ground arith)) here
    | inr (y, p, r) ↦ Reaches-trans (onward here (parent_of_listed name y d found p)) r
  ]

  explored_complete : {x : Str} → Reaches roles name x → contains x result ≡ true
  unfolding contains
  explored_complete here = explored.kept name (ground (arith, str_eq_refl name))
  explored_complete (onward {middle = m} {end = z} p e) = elim (Bool-cases (str_eq m name)) [
    | inl same ↦ explored.taken z (
        contains-reverse z d.inherits
        ∙ listed_of_lookup d e (rw ((str_eq_iff m name).0 same) found))
    | inr other ↦ explored.closed m z (explored_complete p) (ground arith) e
  ]

-- In a graph whose inherited roles are all declared, the closure of a declared name is computed,
-- and it holds exactly the roles that the name reaches, itself included.
pub inherited_closure-Reaches :
    (roles : Roles) (name : Str)
    → IsClosed roles
    → has_key name roles ≡ true
    → (result : List Str) × (inherited_closure name roles ≡ ok result)
      × ((x : Str) → (contains x result ≡ true) ↔ Reaches roles name x)
unfolding inherited_closure
inherited_closure-Reaches roles name closed declared =
    let (d, found) = has_key_iff name roles declared in
    let start : List Str = name ∷ [] in
    let pending : List Str = reverse d.inherits in
    let (result, returns, explored) =
      closure_loop-IsExplored (loop_fuel roles pending) roles start pending closed
        (λ x h. closed name x (parent_of_listed name x d found h))
        (omega (arith, todo-le-edge_count roles start)) in
    (
      result,
      rw (index-eq-ok name roles d found) returns,
      λ x. (explored_sound name d found explored x, explored_complete name d found explored),
    )
