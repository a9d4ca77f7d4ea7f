-- ===== src/Sqlite/Retention/Matcher.antt =====
-- The memoised matcher of `crates/blobyard-repository-sqlite/src/lifecycle_retention_plan.rs`
-- computes what its globs mean.
use blobyard_core.Sqlite.Retention.{
  Memo, recall, Answer, or_else, and_then, not_slash, glob_step, remember, glob_at, matched,
  glob_matches,
}
use blobyard_core.Sqlite.Retention.Glob.{
  deep, star, token_of, tokens, Matches, any_char, decide, decide_iff,
}
use blobyard_core.Base.{
  ℕ, zero, suc, ◌+◌, ◌≤◌, ◌<◌, ◌≡◌, refl, sym, ap, ◌↔◌, inl, inr, Bool, true, false, ◌&&◌, ◌||◌,
  Option, none, some, List, [], ◌∷◌, arith, ltb, ◌==◌, Bool-cases, Option-cases, length, is_empty,
  get_elem?, drop, drop_elem, drop_end, get_elem?-lt, get_elem?-end, plus_one, plus_two, Str, chars,
  first_is, is_some_and,
}
use blobyard_core.Sqlite.Retention.Places.{
  tokens-deep, tokens-one, after_run-drop, decide_one-drop, decide_literal-drop,
}

module _ (P I : List ℕ) where
  -- What the call at two places ought to answer.
  abbrev spec : ℕ → ℕ → Bool
  spec p i = decide (tokens (drop p P)) (drop i I)

  abbrev Sound : Memo → Type 0
  Sound memo = (p i : ℕ) (value : Bool) → recall p i memo ≡ some value → spec p i ≡ value

  abbrev Gives : Bool → Answer → Type 0
  Gives value answer = (memo : Memo) × (answer ≡ some (value, memo)) × Sound memo

  or_else-Gives :
      (a b : Bool) (first : Answer) (rest : Memo → Answer)
      → Gives a first
      → ((memo : Memo) → Sound memo → Gives b (rest memo))
      → Gives (a || b) (or_else first rest)
  or_else-Gives true b first rest (memo, e, s) h = (memo, rw e, s)
  or_else-Gives false b first rest (memo, e, s) h =
      let (memo', e', s') = h memo s in (memo', rw e e', s')

  and_then-Gives :
      (t b : Bool) (call : Memo → Answer) (memo : Memo)
      → Sound memo
      → (t ≡ true → Gives b (call memo))
      → Gives (t && b) (and_then t call memo)
  and_then-Gives true b call memo s h = h refl
  and_then-Gives false b call memo s h = (memo, refl, s)

  -- The call at one place, given that the calls further on answer as they ought to.
  module _ (again : ℕ → ℕ → Memo → Answer) (p i : ℕ) (inside : i ≤ length I)
      (further : (q j : ℕ) (memo : Memo)
        → q ≤ length P
        → j ≤ length I
        → p + i < q + j
        → Sound memo
        → Gives (spec q j) (again q j memo))
      (memo : Memo) (sound : Sound memo) where
    end_Gives : get_elem? P p ≡ none → Gives (spec p i) (glob_step again P I p i memo none)
    unfolding glob_step tokens decide
    end_Gives done = rw (drop_end P p done) (memo, ap (λ b. some (b, memo)) end_test, sound)
      where
        end_test : (i == length I) ≡ is_empty (drop i I)
        end_test = elim (Option-cases (get_elem? I i)) [
          | inl e ↦ let past = get_elem?-end I i e in rw (drop_end I i e) (ground arith)
          | inr (d, e) ↦ let before = get_elem?-lt I i d e in rw (drop_elem I i d e) (ground arith)
        ]

    -- A step that takes one character of the text which passes a test.
    take_Gives :
        (ok_char : ℕ → Bool) (b : Bool) (q : ℕ)
        → q ≤ length P
        → p ≤ q
        → spec q (i + 1) ≡ b
        → (m : Memo) → Sound m
        → Gives
            (is_some_and (get_elem? I i) ok_char && b)
            (and_then (is_some_and (get_elem? I i) ok_char) (again q (i + 1)) m)
    take_Gives ok_char b q within past e m s =
        and_then-Gives (is_some_and (get_elem? I i) ok_char) b (again q (i + 1)) m s λ passes.
          rw e at (further q (i + 1) m within (in_text (get_elem? I i) refl passes) (omega arith) s)
      where
        in_text :
            (o : Option ℕ) → get_elem? I i ≡ o → is_some_and o ok_char ≡ true → i + 1 ≤ length I
        in_text none e passes = absurd (cc)
        in_text (some d) e passes = omega (arith, get_elem?-lt I i d e)

    deep_value :
        tokens (drop p P) ≡ deep ∷ tokens (drop (p + 2) P)
        → spec p i ≡ (spec (p + 2) i || (ltb i (length I) && spec p (i + 1)))
    unfolding decide
    deep_value shape =
        rw (shape, ← in_text) (after_run-drop I any_char (decide (tokens (drop (p + 2) P))) i)
      where
        in_text : is_some_and (get_elem? I i) any_char ≡ ltb i (length I)
        in_text = elim (Option-cases (get_elem? I i)) [
          | inl e ↦ let past = get_elem?-end I i e in rw e (ground arith)
          | inr (d, e) ↦ let before = get_elem?-lt I i d e in rw e (ground arith)
        ]

    deep_Gives :
        (c d : ℕ)
        → get_elem? P p ≡ some c
        → get_elem? P (p + 1) ≡ some d
        → (c == b'*') ≡ true
        → (d == b'*') ≡ true
        → Gives (spec p i) (glob_step again P I p i memo (some c))
    unfolding glob_step
    deep_Gives c d found after star_c star_d =
        let after' : get_elem? P (suc p) ≡ some d = rw (sym (plus_one p)) after in
        let shape : tokens (drop p P) ≡ deep ∷ tokens (drop (p + 2) P) =
          rw (drop_elem P p c found, drop_elem P (suc p) d after', plus_two p)
            (tokens-deep c d (drop (suc (suc p)) P) star_c star_d) in
        let within = get_elem?-lt P (p + 1) d after in
        rw (after, star_c, star_d, deep_value shape)
          (or_else-Gives (spec (p + 2) i) (ltb i (length I) && spec p (i + 1)) _ _
            (further (p + 2) i memo (omega arith) inside (omega arith) sound)
            λ m s.
              and_then-Gives (ltb i (length I)) (spec p (i + 1)) (again p (i + 1)) m s
                λ before. further p (i + 1) m (omega arith) (ground arith) (omega arith) s)

    one_shape :
        (c : ℕ)
        → get_elem? P p ≡ some c
        → (c == b'*' && is_some_and (get_elem? P (p + 1)) (λ d. d == b'*')) ≡ false
        → tokens (drop p P) ≡ token_of c ∷ tokens (drop (p + 1) P)
    one_shape c found alone =
        rw (drop_elem P p c found, plus_one p)
          (tokens-one c (drop (suc p) P) (rw head_next at alone))
      where
        head_next :
            is_some_and (get_elem? P (p + 1)) (λ d. d == b'*')
            ≡ first_is (λ d. d == b'*') (drop (suc p) P)
        head_next = rw (plus_one p) (elim (Option-cases (get_elem? P (suc p))) [
          | inl e ↦ rw (e, drop_end P (suc p) e)
          | inr (d, e) ↦ rw (e, drop_elem P (suc p) d e)
        ])

    star_Gives :
        (c : ℕ)
        → get_elem? P p ≡ some c
        → (c == b'*') ≡ true
        → is_some_and (get_elem? P (p + 1)) (λ d. d == b'*') ≡ false
        → Gives (spec p i) (glob_step again P I p i memo (some c))
    unfolding glob_step decide
    star_Gives c found star_c alone =
        let shape : tokens (drop p P) ≡ star ∷ tokens (drop (p + 1) P) =
          rw star_c at (one_shape c found (ground arith)) in
        let value : spec p i
            ≡ (spec (p + 1) i || (is_some_and (get_elem? I i) not_slash && spec p (i + 1))) =
          rw shape (after_run-drop I not_slash (decide (tokens (drop (p + 1) P))) i) in
        let within = get_elem?-lt P p c found in
        rw (star_c, alone, value)
          (or_else-Gives (spec (p + 1) i) (is_some_and (get_elem? I i) not_slash && spec p (i + 1))
            _ _ (further (p + 1) i memo (omega arith) inside (omega arith) sound)
            λ m s. take_Gives not_slash (spec p (i + 1)) p (omega arith) (omega arith) refl m s)

    single_Gives :
        (c : ℕ)
        → get_elem? P p ≡ some c
        → (c == b'*') ≡ false
        → Gives (spec p i) (glob_step again P I p i memo (some c))
    unfolding glob_step
    single_Gives c found other =
        let within = get_elem?-lt P p c found in
        let shape = one_shape c found (ground arith) in
        elim (Bool-cases (c == b'?')) [
          | inl question ↦
              let value : spec p i
                  ≡ (is_some_and (get_elem? I i) not_slash && spec (p + 1) (i + 1)) =
                rw (shape, other, question) (decide_one-drop I (tokens (drop (p + 1) P)) i) in
              rw (other, question, value)
                (take_Gives not_slash (spec (p + 1) (i + 1)) (p + 1) (omega arith) (omega arith)
                  refl memo sound)
          | inr plain ↦
              let value : spec p i
                  ≡ (is_some_and (get_elem? I i) (λ d. d == c) && spec (p + 1) (i + 1)) =
                rw (shape, other, plain) (decide_literal-drop I c (tokens (drop (p + 1) P)) i) in
              rw (other, plain, value)
                (take_Gives (λ d. d == c) (spec (p + 1) (i + 1)) (p + 1) (omega arith) (omega arith)
                  refl memo sound)
        ]

    glob_step-Gives :
        (o : Option ℕ) → get_elem? P p ≡ o → Gives (spec p i) (glob_step again P I p i memo o)
    glob_step-Gives none e = end_Gives e
    glob_step-Gives (some c) e = elim (Bool-cases (c == b'*')) [
      | inr other ↦ single_Gives c e other
      | inl starred ↦ elim (Option-cases (get_elem? P (p + 1))) [
        | inl last ↦ star_Gives c e starred (rw last)
        | inr (d, after) ↦ elim (Bool-cases (d == b'*')) [
          | inl doubled ↦ deep_Gives c d e after starred doubled
          | inr alone ↦ star_Gives c e starred (rw after alone)
        ]
      ]
    ]

  Sound-insert : (p i : ℕ) (memo : Memo) → Sound memo → Sound (((p, i), spec p i) ∷ memo)
  unfolding recall
  Sound-insert p i memo sound q j value h = elim (Bool-cases (q == p && j == i)) [
    | inl same ↦
        let e : some (spec p i) ≡ some value = rw same at h in
        let e1 : q ≡ p = ground arith in
        let e2 : j ≡ i = ground arith in rw (e1, e2) (let e' : spec p i ≡ value = cc in e')
    | inr other ↦ sound q j value (rw other at h)
  ]

  remember-Gives :
      (p i : ℕ) (answer : Answer) → Gives (spec p i) answer → Gives (spec p i) (remember p i answer)
  remember-Gives p i answer (memo, e, sound) =
      (((p, i), spec p i) ∷ memo, rw e, Sound-insert p i memo sound)

  -- With one more round than the pattern and the text have characters left, every call answers.
  glob_at-Gives :
      (fuel p i : ℕ) (memo : Memo)
      → p ≤ length P
      → i ≤ length I
      → length P + length I < fuel + p + i
      → Sound memo
      → Gives (spec p i) (glob_at fuel P I p i memo)
  unfolding glob_at
  glob_at-Gives zero p i memo within inside enough sound = absurd (omega arith)
  glob_at-Gives (suc fuel) p i memo within inside enough sound =
      elim (Option-cases (recall p i memo)) [
        | inl new ↦ rw new (
            remember-Gives p i _ (
              glob_step-Gives (λ q j m. glob_at fuel P I q j m) p i inside
                (λ q j m w n later s. glob_at-Gives fuel q j m w n (omega arith) s) memo sound
                (get_elem? P p) refl))
        | inr (value, known) ↦ rw (known, sound p i value known) (memo, refl, sound)
      ]

-- The matcher answers on every glob and every text, and it answers yes exactly where the tokens of
-- the glob match the text.
pub glob_matches-Matches :
    (glob value : Str)
    → (answer : Bool) × (glob_matches glob value ≡ some answer)
      × ((answer ≡ true) ↔ Matches (tokens (chars glob)) (chars value))
unfolding glob_matches recall
glob_matches-Matches glob value =
    let (memo, e, sound) =
      glob_at-Gives (chars glob) (chars value) (suc (length (chars glob) + length (chars value))) 0
        0 [] (omega arith) (omega arith) (omega arith) (λ p i v h. absurd (cc)) in
    (
      decide (tokens (chars glob)) (chars value),
      ap matched e,
      decide_iff (tokens (chars glob)) (chars value),
    )
