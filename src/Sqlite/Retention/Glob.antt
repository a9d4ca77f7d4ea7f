-- ===== src/Sqlite/Retention/Glob.antt =====
-- What a retention glob means, apart from how
-- `crates/blobyard-repository-sqlite/src/lifecycle_retention_plan.rs` evaluates it.
use blobyard_core.Sqlite.Retention.{not_slash}
use blobyard_core.Base.{
  ℕ, ◌≡◌, refl, ap, ◌↔◌, inl, inr, Bool, true, false, ◌&&◌, ◌||◌, List, [], ◌∷◌, ◌++◌, arith, ◌==◌,
  if◌then◌else◌, Bool-cases, is_empty, all,
}

pub data Token : Type 0 where
  deep star one_char : Token
  literal : ℕ → Token

abbrev pub token_of : ℕ → Token
token_of c = if c == b'*' then star else if c == b'?' then one_char else literal c

-- Two stars in a row are one token.
unfoldable pub tokens : List ℕ → List Token
tokens [] = []
tokens (c ∷ []) = token_of c ∷ []
tokens (c ∷ d ∷ cs) =
    let after_two = tokens cs in
    let after_one = tokens (d ∷ cs) in
    if c == b'*' && d == b'*' then deep ∷ after_two else token_of c ∷ after_one

-- `**` stands for any text, `*` for any text without a slash, `?` for one character that is no
-- slash, and any other character for itself.
unfoldable pub Matches : List Token → List ℕ → Type 0
Matches [] s = s ≡ []
Matches (deep ∷ ts) s = (a : List ℕ) × (b : List ℕ) × (s ≡ a ++ b) × Matches ts b
Matches (star ∷ ts) s =
    (a : List ℕ) × (b : List ℕ) × (s ≡ a ++ b) × (all not_slash a ≡ true) × Matches ts b
Matches (one_char ∷ ts) s =
    (c : ℕ) × (b : List ℕ) × (s ≡ c ∷ b) × (not_slash c ≡ true) × Matches ts b
Matches (literal c ∷ ts) s = (b : List ℕ) × (s ≡ c ∷ b) × Matches ts b

-- Some rest of the text passes a test, after a part of it whose characters all pass another.
unfoldable pub after_run : (ℕ → Bool) → (List ℕ → Bool) → List ℕ → Bool
after_run ok_char test [] = test []
after_run ok_char test (c ∷ s) = test (c ∷ s) || (ok_char c && after_run ok_char test s)

abbrev pub any_char : ℕ → Bool
any_char c = true

-- The reference matcher, by recursion on the tokens.
unfoldable pub decide : List Token → List ℕ → Bool
decide [] s = is_empty s
decide (deep ∷ ts) s = after_run any_char (decide ts) s
decide (star ∷ ts) s = after_run not_slash (decide ts) s
decide (one_char ∷ ts) [] = false
decide (one_char ∷ ts) (c ∷ s) = not_slash c && decide ts s
decide (literal d ∷ ts) [] = false
decide (literal d ∷ ts) (c ∷ s) = c == d && decide ts s

module _ (ok_char : ℕ → Bool) (test : List ℕ → Bool) where
  after_run_sound :
      (s : List ℕ)
      → after_run ok_char test s ≡ true
      → (a : List ℕ) × (b : List ℕ) × (s ≡ a ++ b) × (all ok_char a ≡ true) × (test b ≡ true)
  unfolding after_run
  after_run_sound [] h = ([], [], refl, refl, h)
  after_run_sound (c ∷ s) h = elim (Bool-cases (test (c ∷ s))) [
    | inl now ↦ ([], c ∷ s, refl, refl, now)
    | inr later ↦
        let both : (ok_char c && after_run ok_char test s) ≡ true = rw later at h in
        let (a, b, e, run, passed) = after_run_sound s (ground arith) in
        (c ∷ a, b, ap (λ l. c ∷ l) e, ground arith, passed)
  ]

  after_run_complete :
      (a b : List ℕ) → all ok_char a ≡ true → test b ≡ true → after_run ok_char test (a ++ b) ≡ true
  unfolding after_run
  after_run_complete [] [] run passed = passed
  after_run_complete [] (c ∷ b) run passed = ground arith
  after_run_complete (c ∷ a) b run passed =
      let rest = after_run_complete a b (ground arith) passed in ground arith

decide-Matches : (ts : List Token) (s : List ℕ) → decide ts s ≡ true → Matches ts s
unfolding decide Matches
decide-Matches [] [] h = refl
decide-Matches [] (c ∷ s) h = absurd (cc)
decide-Matches (deep ∷ ts) s h =
    let (a, b, e, run, passed) = after_run_sound any_char (decide ts) s h in
    (a, b, e, decide-Matches ts b passed)
decide-Matches (star ∷ ts) s h =
    let (a, b, e, run, passed) = after_run_sound not_slash (decide ts) s h in
    (a, b, e, run, decide-Matches ts b passed)
decide-Matches (one_char ∷ ts) [] h = absurd (cc)
decide-Matches (one_char ∷ ts) (c ∷ s) h =
    (c, s, refl, ground arith, decide-Matches ts s (ground arith))
decide-Matches (literal d ∷ ts) [] h = absurd (cc)
decide-Matches (literal d ∷ ts) (c ∷ s) h =
    let e : c ≡ d = ground arith in (s, ap (λ x. x ∷ s) e, decide-Matches ts s (ground arith))

Matches-decide : (ts : List Token) (s : List ℕ) → Matches ts s → decide ts s ≡ true
unfolding decide Matches
Matches-decide [] s e = rw e
Matches-decide (deep ∷ ts) s (a, b, e, m) =
    rw e (after_run_complete any_char (decide ts) a b (any_run a) (Matches-decide ts b m))
  where
    any_run : (a : List ℕ) → all any_char a ≡ true
    any_run [] = refl
    any_run (c ∷ a) = any_run a
Matches-decide (star ∷ ts) s (a, b, e, run, m) =
    rw e (after_run_complete not_slash (decide ts) a b run (Matches-decide ts b m))
Matches-decide (one_char ∷ ts) s (c, b, e, passes, m) = rw e (rw (passes) (Matches-decide ts b m))
Matches-decide (literal d ∷ ts) s (b, e, m) =
    let self : (d == d) ≡ true = ground arith in rw e (rw self (Matches-decide ts b m))

pub decide_iff : (ts : List Token) (s : List ℕ) → (decide ts s ≡ true) ↔ Matches ts s
decide_iff ts s = (decide-Matches ts s, Matches-decide ts s)
