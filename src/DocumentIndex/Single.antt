-- ===== src/DocumentIndex/Single.antt =====
-- A query of one term is read without the WAND reader: what `read_topn` returns of its reader is
-- the best of its documents.
use red_giant.Prelude.{
  ℕ, suc, ◌+◌, ◌≡◌, refl, ap, ◌∙◌, Bool, true, false, not, none, some, List, [], ◌∷◌, arith, ◌==◌,
  if◌then◌else◌, is_some, Bool-cases, inl, inr, All, All-imp, map, length, Option-cases,
}
use red_giant.Key.{nat_key}
use red_giant.Key.Assoc.{lookup}
use red_giant.Weight.{nat_weight}
use red_giant.Container.Sorted.{IsAscending, lookup_below}
use red_giant.Reader.Best.{IsAtMost, IsDescending, counted}
use red_giant.Reader.Top.{AreBest}
use red_giant.Reader.DotProduct.{score_entry}
use red_giant.Wand.Fuel.{==→≡}
use red_giant.Wand.Collect.{is_entry_of}
use red_giant.Wand.Top.{IsTop}

-- What a document scores by its entry.
abbrev pub entry_score : (ℕ → ℕ) → List (ℕ × ℕ) → ℕ → ℕ
entry_score combiner l x = elim (lookup x l) [ none ↦ 0 | some v ↦ combiner v ]

counted-none : (p : ℕ × ℕ → Bool) (l : List (ℕ × ℕ)) → counted p l ≡ 0 → All (λ e. p e ≡ false) l
counted-none p [] h = tt
counted-none p (e ∷ l) h = (ground (arith, h), counted-none p l (ground (arith, h)))

-- One that is counted.
counted-some :
    {P : ℕ × ℕ → Type 0} (p : ℕ × ℕ → Bool) (l : List (ℕ × ℕ)) (n : ℕ)
    → counted p l ≡ suc n
    → All P l
    → (e : ℕ × ℕ) × P e × (p e ≡ true)
counted-some p [] n h a = absurd (omega (arith, h))
counted-some p (e ∷ l) n h a = elim (Bool-cases (p e)) [
  | inl c ↦ (e, a.0, c)
  | inr c ↦ counted-some p l n (ground (arith, h)) a.1
]

All-both : (P Q : ℕ × ℕ → Type 0) (l : List (ℕ × ℕ)) → All P l → All Q l → All (λ e. P e × Q e) l
All-both P Q [] a b = tt
All-both P Q (e ∷ l) a b = ((a.0, b.0), All-both P Q l a.1 b.1)

module _ (combiner : ℕ → ℕ) where
  -- A list of entries, ascending, holds a document once or not at all.
  counted-entry :
      (x lo : ℕ) (l : List (ℕ × ℕ))
      → IsAscending lo l
      → counted (is_entry_of x) (map (score_entry combiner) l)
        ≡ (if is_some (lookup x l) then 1 else 0)
  counted-entry x lo [] a = refl
  counted-entry x lo ((d, v) ∷ l) a = ground (arith, counted-entry x d l a.1, lookup_below x d l)

  abbrev wrong : (ℕ → ℕ) → ℕ × ℕ → Bool
  wrong f e = not (e.1 == f e.0)

  -- Every entry has the score of its document.
  counted-wrong :
      (f : ℕ → ℕ) (lo : ℕ) (l : List (ℕ × ℕ))
      → IsAscending lo l
      → ((x v : ℕ) → lookup x l ≡ some v → f x ≡ combiner v)
      → counted (wrong f) (map (score_entry combiner) l) ≡ 0
  counted-wrong f lo [] a h = refl
  counted-wrong f lo ((d, v) ∷ l) a h =
      ground (
        arith,
        h d v,
        counted-wrong f d l a.1 (λ x u g. h x u (ground (arith, lookup_below x d l))),
      )

  pub AreBest-IsTop :
      (count : ℕ) (l best rest : List (ℕ × ℕ))
      → IsAscending 0 l
      → IsDescending best
      → AreBest count rest best
      → ((p : ℕ × ℕ → Bool)
          → counted p best + counted p rest ≡ counted p (map (score_entry combiner) l))
      → IsTop (entry_score combiner l) 0 count best
  AreBest-IsTop count l best rest a d (room, full, beaten) c =
      let f = entry_score combiner l in
      let all = counted-wrong f 0 l a (λ x v h. rw (entry_score, h) refl) in
      let good : (e : ℕ × ℕ) → wrong f e ≡ false → e.1 ≡ f e.0 = λ e h. ground arith in
      let in_best = counted-none (wrong f) best (omega (arith, c (wrong f), all)) in
      let in_rest = counted-none (wrong f) rest (omega (arith, c (wrong f), all)) in
      let once : (x : ℕ)
          → counted (is_entry_of x) best + counted (is_entry_of x) rest
            ≡ (if is_some (lookup x l) then 1 else 0) =
        λ x. c (is_entry_of x) ∙ counted-entry x 0 l a in
      record {
        descending = d;
        room = room;
        scored = All-imp (λ e. wrong f e ≡ false) good best in_best;
        once = λ x. ground (arith, once x);
        complete = λ x p. elim (Option-cases (lookup x l)) [
          | inl n ↦ inr (inl (rw (entry_score, n) (omega arith)))
          | inr (v, n) ↦ elim (Bool-cases (counted (is_entry_of x) best == 1)) [
            | inl e ↦ inl (ground arith)
            | inr e ↦
                let one : counted (is_entry_of x) rest ≡ 1 = ground (arith, once x, n) in
                let (r, (h, g), q) = counted-some (is_entry_of x) rest 0 one (
                  All-both (λ r. All (IsAtMost r) best) (λ e. wrong f e ≡ false) rest beaten
                    in_rest) in
                let score : r.1 ≡ f x = good r g ∙ ap f (==→≡ r.0 x q) in
                let is_full : length best ≡ count = elim full [
                  | inl z ↦ absurd (omega (arith, one, ap (counted (is_entry_of x)) z))
                  | inr z ↦ z
                ] in
                inr (inr (is_full, All-imp (IsAtMost r) (λ e k. ground (arith, score, k)) best h))
          ]
        ];
      }
