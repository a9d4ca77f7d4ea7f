-- ===== src/Policy/Expansion.antt =====
-- `expand` of `crates/blobyard-core/src/application_policy.rs`: what the precomputed closure says
-- of a graph whose inherited roles are all declared.
use blobyard_core.Policy.{
  RoleDefinition, Roles, gather_permissions, RoleAuthority, role_authority, EffectivePolicy,
  expand_keys, expand,
}
use blobyard_core.Policy.Reach.{Reaches, here, onward, IsClosed}
use blobyard_core.Policy.Closure.{index-eq-ok, inherited_closure-Reaches}
use blobyard_core.Base.{
  ◌≡◌, refl, sym, ◌∙◌, ◌↔◌, inl, inr, true, some, List, [], ◌∷◌, ◌++◌, arith, Bool-cases, Str,
  str_eq, str_eq_iff, str_eq_refl, contains, to_set, lookup, has_key, contains-append,
  contains-to_set, has_key_iff, ok,
}

-- A declared role lists a permission.
pub record Grants (roles : Roles) (role granted : Str) : Type 0 where
  pub definition : RoleDefinition
  pub declared : lookup role roles ≡ some definition
  pub listed : contains granted definition.permissions ≡ true

-- A permission of a role or of one that it inherits.
abbrev pub IsEntitled : Roles → Str → Str → Type 0
IsEntitled roles name granted = (role : Str) × Reaches roles name role × Grants roles role granted

pub Reaches-has_key :
    {roles : Roles} {name x : Str}
    → IsClosed roles
    → has_key name roles ≡ true
    → Reaches roles name x
    → has_key x roles ≡ true
Reaches-has_key closed declared here = declared
Reaches-has_key closed declared (onward {middle = m} {end = z} p e) = closed m z e

-- The roles of a list, one of which grants.
abbrev GrantedBy : Roles → List Str → Str → Type 0
GrantedBy roles held p = (role : Str) × (contains role held ≡ true) × Grants roles role p

GrantedBy-cons :
    (roles : Roles) (role : Str) (rest : List Str) (p : Str)
    → GrantedBy roles rest p
    → GrantedBy roles (role ∷ rest) p
unfolding contains
GrantedBy-cons roles role rest p (r, c, g) = (r, ground arith, g)

gather_permissions-GrantedBy :
    (roles : Roles) (held : List Str)
    → ((x : Str) → contains x held ≡ true → has_key x roles ≡ true)
    → (granted : List Str) × (gather_permissions held roles ≡ ok granted)
      × ((p : Str) → (contains p granted ≡ true) ↔ GrantedBy roles held p)
unfolding gather_permissions contains
gather_permissions-GrantedBy roles [] known =
    ([], refl, λ p. (λ h. absurd (cc), λ (r, c, g). absurd (cc)))
gather_permissions-GrantedBy roles (role ∷ rest) known =
    let (d, declared) = has_key_iff role roles (known role (ground (arith, str_eq_refl role))) in
    let (others, returns, meaning) =
      gather_permissions-GrantedBy roles rest (λ x h. known x (ground arith)) in
    (
      d.permissions ++ others,
      rw (index-eq-ok role roles d declared, returns),
      λ p. (
        λ h. elim (Bool-cases (contains p d.permissions)) [
          | inl own ↦ (
            role,
            ground (arith, str_eq_refl role),
            record { definition = d; declared = declared; listed = own },
          )
          | inr other ↦
              GrantedBy-cons roles role rest p
                ((meaning p).0 (ground (arith, contains-append p d.permissions others)))
        ],
        λ (r, c, g). elim (Bool-cases (str_eq r role)) [
          | inl same ↦
              let e : lookup role roles ≡ some g.definition =
                rw ((str_eq_iff r role).0 same) at g.declared in
              let d' : g.definition ≡ d = cc (e, declared) in
              let own : contains p d.permissions ≡ true = rw d' at g.listed in
              contains-append p d.permissions others ∙ ground arith
          | inr other ↦
              let later : contains p others ≡ true = (meaning p).1 (r, ground arith, g) in
              contains-append p d.permissions others ∙ ground arith
        ],
      ),
    )

-- What the closure says of one role.
pub record IsAuthority (roles : Roles) (name : Str) (held granted : List Str) : Type 0 where
  pub reaches : (x : Str) → (contains x held ≡ true) ↔ Reaches roles name x
  pub entitled : (p : Str) → (contains p granted ≡ true) ↔ IsEntitled roles name p

-- The entries of a name in the two maps.
pub record HasEntry (roles : Roles) (e : EffectivePolicy) (name : Str) : Type 0 where
  pub held : List Str
  pub granted : List Str
  pub role_entry : lookup name e.effective_roles ≡ some held
  pub permission_entry : lookup name e.effective_permissions ≡ some granted
  pub authority : IsAuthority roles name held granted

module _ (roles : Roles) (closed : IsClosed roles) where
  role_authority-IsAuthority :
      (name : Str)
      → has_key name roles ≡ true
      → (a : RoleAuthority) × (role_authority name roles ≡ ok a)
        × IsAuthority roles name a.held a.granted
  unfolding role_authority
  role_authority-IsAuthority name declared =
      let (held, found, reaches) = inherited_closure-Reaches roles name closed declared in
      let (granted, gathered, meaning) =
        gather_permissions-GrantedBy roles held
          (λ x h. Reaches-has_key closed declared ((reaches x).0 h)) in
      (
        record { held = held; granted = to_set granted },
        rw (found, gathered),
        record {
          reaches = reaches;
          entitled = λ p. (
            λ h.
                let (r, c, g) = (meaning p).0 (sym (contains-to_set p granted) ∙ h) in
                (r, (reaches r).0 c, g),
            λ (r, path, g). contains-to_set p granted ∙ (meaning p).1 (r, (reaches r).1 path, g),
          );
        },
      )

  expand_keys-HasEntry :
      (rest : Roles)
      → ((x : Str) → has_key x rest ≡ true → has_key x roles ≡ true)
      → (e : EffectivePolicy) × (expand_keys roles rest ≡ ok e)
        × ((name : Str) → has_key name rest ≡ true → HasEntry roles e name)
  unfolding expand_keys has_key lookup
  expand_keys-HasEntry [] known =
      (record { effective_roles = []; effective_permissions = [] }, refl, λ name h. absurd (cc))
  expand_keys-HasEntry ((n, d) ∷ rest) known =
      let (a, returns, authority) =
        role_authority-IsAuthority n (known n (ground (arith, str_eq_refl n))) in
      let (others, expanded, entries) = expand_keys-HasEntry rest (λ x h. known x (ground arith)) in
      (
        record {
          effective_roles = (n, a.held) ∷ others.effective_roles;
          effective_permissions = (n, a.granted) ∷ others.effective_permissions;
        },
        rw (returns, expanded),
        λ name h. elim (Bool-cases (str_eq name n)) [
          | inl same ↦ record {
            held = a.held;
            granted = a.granted;
            role_entry = rw same;
            permission_entry = rw same;
            authority = rw ((str_eq_iff name n).0 same) authority;
          }
          | inr other ↦
              let entry = entries name (ground arith) in
              record {
                held = entry.held;
                granted = entry.granted;
                role_entry = rw other entry.role_entry;
                permission_entry = rw other entry.permission_entry;
                authority = entry.authority;
              }
        ],
      )

  pub expand-HasEntry :
      (e : EffectivePolicy) × (expand roles ≡ ok e)
      × ((name : Str) → has_key name roles ≡ true → HasEntry roles e name)
  unfolding expand
  expand-HasEntry = expand_keys-HasEntry roles (λ x h. h)
