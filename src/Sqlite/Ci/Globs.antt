-- ===== src/Sqlite/Ci/Globs.antt =====
-- What a reference glob means: `crates/blobyard-repository-sqlite/src/ci_validation.rs`.
use mathlib.Core.Path.{subst}
use mathlib.Core.List.{reverse-append, reverse-reverse, append_assoc, append-nil}
use blobyard_core.Sqlite.Ci.{find_after, match_segments, match_pieces, ref_matches}
use blobyard_core.Base.{
  ◌≤◌, ◌≡◌, refl, sym, ap, ◌∙◌, ◌↔◌, inl, inr, true, false, none, some, List, [], ◌∷◌, ◌++◌,
  reverse, arith, ◌==◌, ==_iff, Bool-cases, Option-cases, length, length-append, Str, split,
  strip_prefix, strip_suffix, ends_with,
}

-- The segments stand in a text in their order, with any text before each, and the last at its end.
abbrev pub Fits : List Str → Str → Type 0
Fits [] v = v ≡ []
Fits (segment ∷ segments) v = (gap tail : Str) × (v ≡ gap ++ (segment ++ tail)) × Fits segments tail

-- A text is the pieces of a glob between its stars, with any text in the place of each star.
abbrev pub IsMatch : List Str → Str → Type 0
IsMatch [] v = v ≡ []
IsMatch (first ∷ segments) v = (tail : Str) × (v ≡ first ++ tail) × Fits segments tail

pub strip_prefix-append : (p t : Str) → strip_prefix p (p ++ t) ≡ some t
unfolding strip_prefix
strip_prefix-append [] t = refl
strip_prefix-append (c ∷ p) t =
    let e : (c == c) ≡ true = (==_iff c c).1 refl in rw e (strip_prefix-append p t)

pub strip_prefix-eq-some : (p v t : Str) → strip_prefix p v ≡ some t → v ≡ p ++ t
unfolding strip_prefix
strip_prefix-eq-some [] v t h = let e : some v ≡ some t = h in cc
strip_prefix-eq-some (c ∷ p) [] t h = absurd (let e : none ≡ some t = h in cc)
strip_prefix-eq-some (c ∷ p) (x ∷ v) t h = elim (Bool-cases (c == x)) [
  | inl same ↦
      let rest = strip_prefix-eq-some p v t (rw same at h) in
      let head = (==_iff c x).0 same in ap (λ k. k ∷ v) (sym head) ∙ ap (λ l. c ∷ l) rest
  | inr other ↦ absurd (let e : none ≡ some t = rw other at h in cc)
]

-- Of two splittings of a text, the one with the shorter front has the longer rest.
longer_rest : (a b x y : Str) → a ++ x ≡ b ++ y → length a ≤ length b → (e : Str) × (x ≡ e ++ y)
longer_rest [] b x y h short = (b, h)
longer_rest (c ∷ a) [] x y h short = absurd (omega arith)
longer_rest (c ∷ a) (d ∷ b) x y h short =
    longer_rest a b x y (let e : c ∷ (a ++ x) ≡ d ∷ (b ++ y) = h in cc) (omega arith)

find_after-eq-some :
    (segment v tail : Str)
    → find_after segment v ≡ some tail
    → (gap : Str) × (v ≡ gap ++ (segment ++ tail))
unfolding find_after
find_after-eq-some segment [] tail h = ([], strip_prefix-eq-some segment [] tail h)
find_after-eq-some segment (c ∷ v) tail h = elim (Option-cases (strip_prefix segment (c ∷ v))) [
  | inl absent ↦
      let (gap, e) = find_after-eq-some segment v tail (rw (absent, find_after) at h) in
      (c ∷ gap, ap (λ l. c ∷ l) e)
  | inr (t, here) ↦
      let e : some t ≡ some tail = rw (here, find_after) at h in
      ([], strip_prefix-eq-some segment (c ∷ v) tail (here ∙ e))
]

find_after-here :
    (segment v t : Str) → strip_prefix segment v ≡ some t → find_after segment v ≡ some t
unfolding find_after
find_after-here segment [] t h = h
find_after-here segment (c ∷ v) t h = rw (h, find_after)

-- The first place leaves at least as much of the text as any other.
find_after-first :
    (segment gap tail : Str)
    → (e found : Str) × (find_after segment (gap ++ (segment ++ tail)) ≡ some found)
      × (found ≡ e ++ tail)
unfolding find_after
find_after-first segment [] tail = (
  [],
  tail,
  find_after-here segment (segment ++ tail) tail (strip_prefix-append segment tail),
  refl,
)
find_after-first segment (c ∷ gap) tail =
    let v = c ∷ gap ++ (segment ++ tail) in
    elim (Option-cases (strip_prefix segment v)) [
      | inl absent ↦
          let (e, found, there, same) = find_after-first segment gap tail in
          (e, found, rw (absent, find_after) there, same)
      | inr (t, here) ↦
          let shape : segment ++ t ≡ ((c ∷ gap) ++ segment) ++ tail =
            sym (strip_prefix-eq-some segment v t here)
            ∙ sym (append_assoc (c ∷ gap) segment tail) in
          let counted = length-append (c ∷ gap) segment in
          let (e, same) = longer_rest segment ((c ∷ gap) ++ segment) t tail shape (omega arith) in
          (e, t, find_after-here segment v t here, same)
    ]

ends_with-append : (gap p : Str) → ends_with p (gap ++ p) ≡ true
unfolding strip_suffix
ends_with-append gap p =
    let e : strip_prefix (reverse p) (reverse (gap ++ p)) ≡ some (reverse gap) =
      rw (reverse-append gap p) (strip_prefix-append (reverse p) (reverse gap)) in
    rw (e, ends_with, strip_suffix)

ends_with-eq-true : (p v : Str) → ends_with p v ≡ true → (gap : Str) × (v ≡ gap ++ p)
unfolding strip_suffix
ends_with-eq-true p v h = elim (Option-cases (strip_prefix (reverse p) (reverse v))) [
  | inl absent ↦ absurd (let bad : false ≡ true = rw (absent, ends_with, strip_suffix) at h in cc)
  | inr (t, there) ↦
      let e = strip_prefix-eq-some (reverse p) (reverse v) t there in
      (
        reverse t,
        sym (reverse-reverse v)
            ∙ ap reverse e
            ∙ reverse-append (reverse p) t
            ∙ ap (λ l. reverse t ++ l) (reverse-reverse p),
      )
]

-- More text before the first segment does not matter.
Fits-append :
    (segment : Str) (segments : List Str) (e v : Str)
    → Fits (segment ∷ segments) v
    → Fits (segment ∷ segments) (e ++ v)
Fits-append segment segments e v (gap, tail, shape, rest) =
    (e ++ gap, tail, ap (λ l. e ++ l) shape ∙ sym (append_assoc e gap (segment ++ tail)), rest)

match_segments-Fits :
    (segments : List Str) (v : Str) → match_segments segments v ≡ true → Fits segments v
unfolding match_segments
match_segments-Fits [] [] h = refl
match_segments-Fits [] (c ∷ v) h = absurd (let bad : false ≡ true = h in cc)
match_segments-Fits (segment ∷ []) v h =
    let (gap, shape) = ends_with-eq-true segment v h in
    (gap, [], shape ∙ ap (λ l. gap ++ l) (sym (append-nil segment)), refl)
match_segments-Fits (segment ∷ next ∷ segments) v h = elim (Option-cases (find_after segment v)) [
  | inl absent ↦ absurd (let bad : false ≡ true = rw (absent, match_segments) at h in cc)
  | inr (tail, there) ↦
      let (gap, shape) = find_after-eq-some segment v tail there in
      (
        gap,
        tail,
        shape,
        match_segments-Fits (next ∷ segments) tail (rw (there, match_segments) at h),
      )
]

Fits-match_segments :
    (segments : List Str) (v : Str) → Fits segments v → match_segments segments v ≡ true
unfolding match_segments
Fits-match_segments [] v e = rw e refl
Fits-match_segments (segment ∷ []) v (gap, tail, shape, last) =
    subst (λ l. ends_with segment l ≡ true)
      (ap (λ l. gap ++ l) (sym (append-nil segment) ∙ ap (λ t. segment ++ t) (sym last))
        ∙ sym shape)
      (ends_with-append gap segment)
Fits-match_segments (segment ∷ next ∷ segments) v (gap, tail, shape, rest) =
    let (e, found, there, same) = find_after-first segment gap tail in
    let there' : find_after segment v ≡ some found = ap (find_after segment) shape ∙ there in
    rw (there', match_segments)
      (Fits-match_segments (next ∷ segments) found
        (subst (Fits (next ∷ segments)) (sym same) (Fits-append next segments e tail rest)))

match_pieces_iff : (pieces : List Str) (v : Str) → (match_pieces pieces v ≡ true) ↔ IsMatch pieces v
unfolding match_pieces
match_pieces_iff [] [] = (λ h. refl, λ e. refl)
match_pieces_iff [] (c ∷ v) = (λ h. absurd (let bad : false ≡ true = h in cc), λ e. absurd (cc))
match_pieces_iff (first ∷ segments) v = (
  λ h. elim (Option-cases (strip_prefix first v)) [
    | inl absent ↦ absurd (let bad : false ≡ true = rw (absent, match_pieces) at h in cc)
    | inr (tail, there) ↦ (
      tail,
      strip_prefix-eq-some first v tail there,
      match_segments-Fits segments tail (rw (there, match_pieces) at h),
    )
  ],
  λ (tail, shape, rest).
      let there : strip_prefix first v ≡ some tail =
        ap (strip_prefix first) shape ∙ strip_prefix-append first tail in
      rw (there, match_pieces) (Fits-match_segments segments tail rest),
)

-- A reference matches a glob exactly when it is the pieces of the glob between its stars in their
-- order, with any text in the place of each star: to take the first place of each piece loses no
-- match.
pub ref_matches_iff :
    (value glob : Str) → (ref_matches value glob ≡ true) ↔ IsMatch (split b'*' glob) value
unfolding ref_matches
ref_matches_iff value glob = match_pieces_iff (split b'*' glob) value
