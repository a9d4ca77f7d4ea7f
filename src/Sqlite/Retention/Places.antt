-- ===== src/Sqlite/Retention/Places.antt =====
-- The meaning of a glob at one place of the pattern and of the text:
-- `crates/blobyard-repository-sqlite/src/lifecycle_retention_plan.rs`.
use blobyard_core.Sqlite.Retention.{not_slash}
use blobyard_core.Sqlite.Retention.Glob.{
  Token, deep, one_char, literal, token_of, tokens, after_run, decide,
}
use blobyard_core.Base.{
  ℕ, ◌+◌, ◌≡◌, refl, inl, inr, Bool, true, false, ◌&&◌, ◌||◌, List, [], ◌∷◌, arith, ◌==◌,
  Option-cases, get_elem?, drop, drop_elem, drop_end, plus_one, first_is, is_some_and,
}

-- The tokens of a pattern, by its first character or its first two.
pub tokens-deep :
    (c d : ℕ) (cs : List ℕ)
    → (c == b'*') ≡ true
    → (d == b'*') ≡ true
    → tokens (c ∷ d ∷ cs) ≡ deep ∷ tokens cs
unfolding tokens
tokens-deep c d cs h k = rw (h, k)

pub tokens-one :
    (c : ℕ) (cs : List ℕ)
    → (c == b'*' && first_is (λ d. d == b'*') cs) ≡ false
    → tokens (c ∷ cs) ≡ token_of c ∷ tokens cs
unfolding tokens
tokens-one c [] h = refl
tokens-one c (d ∷ cs) h = rw h

module _ (I : List ℕ) where
  pub after_run-drop :
      (ok_char : ℕ → Bool) (test : List ℕ → Bool) (i : ℕ)
      → after_run ok_char test (drop i I) ≡ (
          test (drop i I)
          || (is_some_and (get_elem? I i) ok_char && after_run ok_char test (drop (i + 1) I)))
  unfolding after_run
  after_run-drop ok_char test i = elim (Option-cases (get_elem? I i)) [
    | inl done ↦ rw (done, drop_end I i done) (ground arith)
    | inr (d, found) ↦ rw (found, drop_elem I i d found, plus_one i)
  ]

  pub decide_one-drop :
      (ts : List Token) (i : ℕ)
      → decide (one_char ∷ ts) (drop i I)
        ≡ (is_some_and (get_elem? I i) not_slash && decide ts (drop (i + 1) I))
  unfolding decide
  decide_one-drop ts i = elim (Option-cases (get_elem? I i)) [
    | inl done ↦ rw (done, drop_end I i done)
    | inr (d, found) ↦ rw (found, drop_elem I i d found, plus_one i)
  ]

  pub decide_literal-drop :
      (c : ℕ) (ts : List Token) (i : ℕ)
      → decide (literal c ∷ ts) (drop i I)
        ≡ (is_some_and (get_elem? I i) (λ d. d == c) && decide ts (drop (i + 1) I))
  unfolding decide
  decide_literal-drop c ts i = elim (Option-cases (get_elem? I i)) [
    | inl done ↦ rw (done, drop_end I i done)
    | inr (d, found) ↦ rw (found, drop_elem I i d found, plus_one i)
  ]
