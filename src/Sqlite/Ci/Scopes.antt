-- ===== src/Sqlite/Ci/Scopes.antt =====
-- What the globs of trusts let in: `crates/blobyard-repository-sqlite/src/ci_validation.rs`.
use mathlib.Core.Path.{subst}
use mathlib.Core.List.{append_assoc}
use blobyard_core.Sqlite.Ci.{ref_matches, named_refs, valid_ref_glob, valid_glob_tail}
use blobyard_core.Sqlite.Ci.Globs.{
  IsMatch, strip_prefix-append, strip_prefix-eq-some, ref_matches_iff,
}
use blobyard_core.Base.{
  ℕ, ◌≡◌, refl, ap, ◌∙◌, inl, inr, true, false, some, List, [], ◌∷◌, ◌++◌, arith, ◌==◌, Bool-cases,
  Option-cases, any, Str, lit, add_first, split, strip_prefix, starts_with, is_some_and,
}

split_first : (c : ℕ) (s : Str) → (p : Str × List Str) × (split c s ≡ p.0 ∷ p.1)
unfolding split
split_first c [] = (([], []), refl)
split_first c (x ∷ s) = elim (Bool-cases (x == c)) [
  | inl here ↦ (([], split c s), rw (here, split))
  | inr other ↦
      let (p, e) = split_first c s in ((x ∷ p.0, p.1), rw (other, split) (ap (add_first x) e))
]

-- A front without the character stays in the first piece.
split_front :
    (c : ℕ) (front t : Str)
    → any (λ b. b == c) front ≡ false
    → (p : Str × List Str) × (split c (front ++ t) ≡ (front ++ p.0) ∷ p.1)
unfolding split
split_front c [] t free = split_first c t
split_front c (x ∷ front) t free =
    let other : (x == c) ≡ false = ground arith in
    let (p, e) = split_front c front t (ground arith) in (p, rw (other, split) (ap (add_first x) e))

in_scope :
    (prefix value glob : Str)
    → any (λ b. b == b'*') prefix ≡ false
    → ref_matches value glob ≡ true
    → is_some_and (strip_prefix prefix glob) valid_glob_tail ≡ true
    → starts_with prefix value ≡ true
in_scope prefix value glob free matched named = elim (Option-cases (strip_prefix prefix glob)) [
  | inl absent ↦ absurd (let bad : false ≡ true = rw absent at named in cc)
  | inr (t, there) ↦
      let ((x, ps), pieces) = split_front b'*' prefix t free in
      let whole : split b'*' glob ≡ (prefix ++ x) ∷ ps =
        ap (split b'*') (strip_prefix-eq-some prefix glob t there) ∙ pieces in
      let (tail, shape, _) =
        subst (λ l. IsMatch l value) whole ((ref_matches_iff value glob).0 matched) in
      let e : strip_prefix prefix value ≡ some (x ++ tail) =
        ap (strip_prefix prefix) (shape ∙ append_assoc prefix x tail)
        ∙ strip_prefix-append prefix (x ++ tail) in
      rw (e, starts_with)
]

-- A reference that matches a glob which a trust may have is a branch, a tag or a pull request:
-- it begins with one of the three prefixes.
pub valid_ref_glob-ref_matches :
    (value glob : Str)
    → valid_ref_glob glob ≡ true
    → ref_matches value glob ≡ true
    → any (λ prefix. starts_with prefix value) named_refs ≡ true
unfolding valid_ref_glob
valid_ref_glob-ref_matches value glob valid matched =
    let heads = in_scope (lit "refs/heads/") value glob refl matched in
    let tags = in_scope (lit "refs/tags/") value glob refl matched in
    let pull = in_scope (lit "refs/pull/") value glob refl matched in
    elim (Bool-cases (is_some_and (strip_prefix (lit "refs/heads/") glob) valid_glob_tail)) [
      | inl one ↦ let e = heads one in ground arith
      | inr not_one ↦
          elim (Bool-cases (is_some_and (strip_prefix (lit "refs/tags/") glob) valid_glob_tail)) [
            | inl two ↦ let e = tags two in ground arith
            | inr not_two ↦ let e = pull (ground arith) in ground arith
          ]
    ]
