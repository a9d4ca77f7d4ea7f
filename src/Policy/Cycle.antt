-- ===== src/Policy/Cycle.antt =====
-- `has_cycle` of `crates/blobyard-core/src/application_policy.rs` decides whether a role inherits
-- itself.
use blobyard_core.Policy.{
  RoleDefinition, Roles, Stop, panicked, index, loop_fuel, extend, cycle_loop, has_cycle,
}
use blobyard_core.Policy.Reach.{
  Inherits, Reaches, here, onward, IsCyclic, contains-extend, length-extend, todo,
  todo-le-edge_count, todo-set_insert,
}
use blobyard_core.Policy.Closure.{
  Reaches-trans, index-eq-ok, listed_of_lookup, IsExplored, IsExplored-nil, IsExplored-again,
  IsExplored-new, parent_of_listed,
}
use blobyard_core.Base.{
  ℕ, zero, suc, ◌+◌, ◌<◌, ◌≡◌, refl, ◌∙◌, ◌⊎◌, inl, inr, Bool, true, false, some, List, [], ◌∷◌,
  reverse, arith, Bool-cases, Option-cases, length, Str, str_eq, str_eq_iff, str_eq_refl, Result,
  contains, set_insert, lookup, has_key, contains-reverse, contains-set_insert, has_key_iff,
  has_key_of_lookup, has_key_of_none, ok, err,
}

-- What an answer of the loop says.
abbrev Answers : Roles → Str → (visited pending : List Str) → Bool → Type 0
Answers roles origin visited pending true =
    (y : Str) × (contains y pending ≡ true) × Reaches roles y origin
Answers roles origin visited pending false =
    (result : List Str) × IsExplored roles visited pending result
    × (contains origin result ≡ false)
    × ((x : Str) → contains x result ≡ true → contains x visited ≡ false → has_key x roles ≡ true)

-- Something that waits leads to a role that is not declared.
pub record IsDangling (roles : Roles) (pending : List Str) : Type 0 where
  pub start : Str
  pub waits : contains start pending ≡ true
  pub end : Str
  pub path : Reaches roles start end
  pub missing : has_key end roles ≡ false

Answers-again :
    (roles : Roles) (origin : Str) (visited pending : List Str) (c : Str) (b : Bool)
    → contains c visited ≡ true
    → Answers roles origin visited pending b
    → Answers roles origin visited (c ∷ pending) b
unfolding contains
Answers-again roles origin visited pending c true old (y, p, r) = (y, ground arith, r)
Answers-again roles origin visited pending c false old (result, e, absent, known) =
    (result, IsExplored-again c old e, absent, known)

Answers-new :
    (roles : Roles) (origin : Str) (visited pending : List Str) (c : Str) (d : RoleDefinition)
    (b : Bool)
    → lookup c roles ≡ some d
    → Answers roles origin (set_insert c visited) (extend d.inherits pending) b
    → Answers roles origin visited (c ∷ pending) b
unfolding contains
Answers-new roles origin visited pending c d true declared (y, p, r) =
    elim (Bool-cases (contains y d.inherits)) [
      | inl parent ↦ (
        c,
        ground (arith, str_eq_refl c),
        Reaches-trans
            (onward here (record { definition = d; declared = declared; listed = parent })) r,
      )
      | inr waits ↦ (y, ground (arith, contains-extend y d.inherits pending), r)
    ]
Answers-new roles origin visited pending c d false declared (result, e, absent, known) = (
  result,
  IsExplored-new c d declared e,
  absent,
  λ x h f. elim (Bool-cases (str_eq x c)) [
    | inl same ↦ rw ((str_eq_iff x c).0 same) (has_key_of_lookup c roles d declared)
    | inr other ↦ known x h (ground (arith, contains-set_insert x c visited))
  ],
)

IsDangling-again :
    (roles : Roles) (pending : List Str) (c : Str)
    → IsDangling roles pending
    → IsDangling roles (c ∷ pending)
unfolding contains
IsDangling-again roles pending c w = record {
  start = w.start;
  waits = ground (arith, w.waits);
  end = w.end;
  path = w.path;
  missing = w.missing;
}

IsDangling-new :
    (roles : Roles) (pending : List Str) (c : Str) (d : RoleDefinition)
    → lookup c roles ≡ some d
    → IsDangling roles (extend d.inherits pending)
    → IsDangling roles (c ∷ pending)
unfolding contains
IsDangling-new roles pending c d declared w = elim (Bool-cases (contains w.start d.inherits)) [
  | inl parent ↦ record {
    start = c;
    waits = ground (arith, str_eq_refl c);
    end = w.end;
    path =
        Reaches-trans
          (onward here (record { definition = d; declared = declared; listed = parent })) w.path;
    missing = w.missing;
  }
  | inr other ↦ record {
    start = w.start;
    waits = ground (arith, w.waits, contains-extend w.start d.inherits pending);
    end = w.end;
    path = w.path;
    missing = w.missing;
  }
]

-- How the loop ends: with an answer, or by the panic at an undeclared role.
Outcomes : Roles → Str → (visited pending : List Str) → Result Bool Stop → Type 0
Outcomes roles origin visited pending r =
    ((b : Bool) × (r ≡ ok b) × Answers roles origin visited pending b)
    ⊎ ((r ≡ err panicked) × IsDangling roles pending)

cycle_loop-Outcomes :
    (fuel : ℕ) (origin : Str) (roles : Roles) (visited pending : List Str)
    → contains origin visited ≡ false
    → todo roles visited + length pending < fuel
    → Outcomes roles origin visited pending (cycle_loop fuel origin roles visited pending)
unfolding cycle_loop contains Outcomes index
cycle_loop-Outcomes zero origin roles visited pending absent enough = absurd (omega arith)
cycle_loop-Outcomes (suc fuel) origin roles visited [] absent enough =
    inl (false, refl, (visited, IsExplored-nil roles visited, absent, λ x h f. absurd (cc)))
cycle_loop-Outcomes (suc fuel) origin roles visited (c ∷ pending) absent enough =
    elim (Bool-cases (str_eq c origin)) [
      | inl same ↦ inl (
        true,
        rw same,
        (c, ground (arith, str_eq_refl c), rw ((str_eq_iff c origin).0 same) here),
      )
      | inr apart ↦ elim (Bool-cases (contains c visited)) [
        | inl old ↦
            elim (cycle_loop-Outcomes fuel origin roles visited pending absent (omega arith)) [
              | inl (b, returns, answers) ↦ inl (
                b,
                rw (apart, old) returns,
                Answers-again roles origin visited pending c b old answers,
              )
              | inr (stops, w) ↦ inr (rw (apart, old) stops, IsDangling-again roles pending c w)
            ]
        | inr new ↦ elim (Option-cases (lookup c roles)) [
          | inl unknown ↦ inr (
            rw (apart, new, unknown),
            record {
              start = c;
              waits = ground (arith, str_eq_refl c);
              end = c;
              path = here;
              missing = has_key_of_none c roles unknown;
            },
          )
          | inr (d, declared) ↦
              elim (cycle_loop-Outcomes fuel origin roles (set_insert c visited)
                (extend d.inherits pending)
                (ground (
                  arith,
                  contains-set_insert origin c visited,
                  str_eq_iff origin c,
                  str_eq_iff c origin,
                ))
                (omega (
                  arith,
                  todo-set_insert roles c visited d declared new,
                  length-extend d.inherits pending,
                ))) [
                  | inl (b, returns, answers) ↦ inl (
                    b,
                    rw (apart, new, declared) returns,
                    Answers-new roles origin visited pending c d b declared answers,
                  )
                  | inr (stops, w) ↦
                      inr (
                        rw (apart, new, declared) stops,
                        IsDangling-new roles pending c d declared w,
                      )
                ]
        ]
      ]
    ]

-- A first step and the rest of the way are a way and a last step.
last_step :
    {roles : Roles} {a y b : Str}
    → Inherits roles a y
    → Reaches roles y b
    → (last : Str) × Reaches roles a last × Inherits roles last b
last_step {a} e here = (a, here, e)
last_step e (onward {middle = m} p f) = (m, Reaches-trans (onward here e) p, f)

-- Where the loop answers no, everything that the name inherits was explored.
module _ {roles : Roles} {result : List Str} (name : Str) (d : RoleDefinition)
    (found : lookup name roles ≡ some d)
    (explored : IsExplored roles [] (reverse d.inherits) result) where
  inherited_explored :
      {m z : Str} → Reaches roles name m → Inherits roles m z → contains z result ≡ true
  unfolding contains
  inherited_explored {z} here e =
      explored.taken z (contains-reverse z d.inherits ∙ listed_of_lookup d e found)
  inherited_explored {m} {z} (onward p f) e = explored.closed m z (inherited_explored p f) refl e

-- Every role that is inherited, in any number of steps, is declared.
abbrev pub IsGrounded : Roles → Str → Type 0
IsGrounded roles name =
    (m z : Str) → Reaches roles name m → Inherits roles m z → has_key z roles ≡ true

-- The three ways in which a search from a declared name ends; it never runs out of fuel.
pub data IsDecided (roles : Roles) (name : Str) (r : Result Bool Stop) : Type 0 where
  cyclic : r ≡ ok true → IsCyclic roles name → IsDecided roles name r
  acyclic : r ≡ ok false → ¬ (IsCyclic roles name) → IsGrounded roles name → IsDecided roles name r
  dangling :
      (end : Str)
      → r ≡ err panicked
      → Reaches roles name end
      → has_key end roles ≡ false
      → IsDecided roles name r

IsDecided-of_Answers :
    (roles : Roles) (name : Str) (d : RoleDefinition) (b : Bool) (r : Result Bool Stop)
    → lookup name roles ≡ some d
    → r ≡ ok b
    → Answers roles name [] (reverse d.inherits) b
    → IsDecided roles name r
unfolding contains
IsDecided-of_Answers roles name d true r found returns (y, p, path) =
    let (last, way, closes) = last_step (parent_of_listed name y d found p) path in
    IsDecided.cyclic returns (record { last = last; path = way; closes = closes })
IsDecided-of_Answers roles name d false r found returns (result, explored, absent, known) =
    IsDecided.acyclic returns
      (λ cycle.
        let present = inherited_explored name d found explored cycle.path cycle.closes in cc)
      (λ m z path edge. known z (inherited_explored name d found explored path edge) refl)

-- The search from a declared name ends: with yes and a cycle through the name, with no where there
-- is none and all that the name inherits is declared, or with the panic of a missing map key where
-- the name inherits, in some number of steps, a role that is not declared.
pub has_cycle-IsDecided :
    (roles : Roles) (name : Str)
    → has_key name roles ≡ true
    → IsDecided roles name (has_cycle name roles)
unfolding has_cycle Outcomes contains
has_cycle-IsDecided roles name declared =
    let (d, found) = has_key_iff name roles declared in
    let pending : List Str = reverse d.inherits in
    rw (index-eq-ok name roles d found)
      (elim (cycle_loop-Outcomes (loop_fuel roles pending) name roles [] pending refl
        (omega (arith, todo-le-edge_count roles []))) [
          | inl (b, returns, answers) ↦ IsDecided-of_Answers roles name d b _ found returns answers
          | inr (stops, w) ↦
              IsDecided.dangling w.end stops
                (Reaches-trans (onward here (parent_of_listed name w.start d found w.waits)) w.path)
                w.missing
        ])

IsCyclic-decided :
    (roles : Roles) (name : Str)
    → IsDecided roles name (has_cycle name roles)
    → has_cycle name roles ≡ ok false
    → ¬ (IsCyclic roles name)
IsCyclic-decided roles name (IsDecided.cyclic e c) h = absurd (cc)
IsCyclic-decided roles name (IsDecided.acyclic e c g) h = c
IsCyclic-decided roles name (IsDecided.dangling z e p m) h = absurd (cc)

-- The answer no is right.
pub has_cycle-eq-false :
    (roles : Roles) (name : Str)
    → has_key name roles ≡ true
    → has_cycle name roles ≡ ok false
    → ¬ (IsCyclic roles name)
has_cycle-eq-false roles name declared h =
    IsCyclic-decided roles name (has_cycle-IsDecided roles name declared) h
