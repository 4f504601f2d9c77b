-- ===== src/Wand/Carried.antt =====
-- What holds of every reader, and that its own moves keep, the moves of the WAND reader keep.
use mathlib.Core.Path.{subst}
use red_giant.Prelude.{
  ℕ, zero, suc, ◌+◌, ◌≡◌, ◌-◌, Option, none, some, List, [], ◌∷◌, arith, ltb, leb, ◌==◌, Bool-cases,
  inl, inr, length,
}
use red_giant.Reader.{PostingListReader}
use red_giant.Wand.{
  WandReader, nth, put, step_term, step_loop, step_next, next_loop, next, pick_term, remove_term,
  move_term, read_loop, find_pivot,
}

-- What holds of each reader holds when one of them changes to a state of which it holds.
put-All :
    {S : Type 0} (P : ℕ → S → Type 0) (t : ℕ) (s : S) (readers : ℕ → S)
    → P t s
    → ((i : ℕ) → P i (readers i))
    → (i : ℕ) → P i (put t s readers i)
put-All P t s readers h a i = elim (Bool-cases (t == i)) [
  | inl e ↦ rw e (subst (λ j. P j s) (ground (arith, e)) h)
  | inr e ↦ rw e (a i)
]

module _ {S : Type 0} (reader : PostingListReader S ℕ) (P : ℕ → S → Type 0) where
  module _ (moves : (i c : ℕ) (s : S) → P i s → P i (reader.next c s).1) where
    step_term-All :
        (t c : ℕ) (w : WandReader S)
        → ((i : ℕ) → P i (w.readers i))
        → (i : ℕ) → P i ((step_term reader t c w).readers i)
    unfolding step_term remove_term move_term
    step_term-All t c w a i =
        let index = nth t w.sorted_indexes in
        let (d, s) = reader.next c (w.readers index) in
        let h = put-All P index s w.readers (moves index c (w.readers index) (a index)) a i in
        elim (Bool-cases (d == 0)) [ inl e ↦ rw (step_term, e) h | inr e ↦ rw (step_term, e) h ]

    step_loop-All :
        (p c : ℕ) (w : WandReader S)
        → ((i : ℕ) → P i (w.readers i))
        → (i : ℕ) → P i ((step_loop reader p c w).1.readers i)
    unfolding step_loop
    step_loop-All zero c w a i = a i
    step_loop-All (suc p) c w a i = elim (Bool-cases (ltb w.threshold (nth p w.acc_upper_bounds))) [
      | inl e ↦
          rw (step_loop, e)
            (step_loop-All p c (step_term reader (pick_term (suc p) c) c w)
              (step_term-All (pick_term (suc p) c) c w a) i)
      | inr e ↦ rw (step_loop, e) (a i)
    ]

    abbrev Returned : Option (ℕ × WandReader S) → Type 0
    Returned none = Unit
    Returned (some (d, w)) = (i : ℕ) → P i (w.readers i)

    next_loop-All :
        (fuel p current : ℕ) (w : WandReader S)
        → ((i : ℕ) → P i (w.readers i))
        → Returned (next_loop reader fuel p current w)
    unfolding next_loop step_next
    next_loop-All zero p current w a = tt
    next_loop-All (suc fuel) p current w a =
        let pc = w.reader_cursors (nth p w.sorted_indexes) in
        let again : (c : ℕ)
            → Returned (
                next_loop reader fuel (step_next reader p c w).0 current
                  (step_next reader p c w).1) =
          λ c.
            next_loop-All fuel (step_next reader p c w).0 current (step_next reader p c w).1
              (step_loop-All (suc p) c w a) in
        elim (Bool-cases (leb (length w.sorted_indexes) p)) [
          | inl e1 ↦ rw (next_loop, e1) a
          | inr e1 ↦ elim (Bool-cases (ltb current pc)) [
            | inr e2 ↦ rw (next_loop, e1, e2) (again current)
            | inl e2 ↦ elim (Bool-cases (w.reader_cursors (nth 0 w.sorted_indexes) == pc)) [
              | inl e3 ↦ rw (next_loop, e1, e2, e3) a
              | inr e3 ↦ rw (next_loop, e1, e2, e3) (again (pc - 1))
            ]
          ]
        ]

    pub next-All :
        (fuel current d : ℕ) (w w' : WandReader S)
        → ((i : ℕ) → P i (w.readers i))
        → next reader fuel current w ≡ some (d, w')
        → (i : ℕ) → P i (w'.readers i)
    unfolding next
    next-All fuel current d w w' a h =
        subst Returned h (next_loop-All fuel (find_pivot 0 w) current w a)

  pub read_loop-All :
      (reads : (i : ℕ) (s : S) → P i s → P i (reader.read s).1) (cursors : ℕ → ℕ) (d : ℕ)
      (l : List ℕ) (score : ℕ) (readers : ℕ → S)
      → ((i : ℕ) → P i (readers i))
      → (i : ℕ) → P i ((read_loop reader cursors d l score readers).1 i)
  unfolding read_loop
  read_loop-All reads cursors d [] score readers a i = a i
  read_loop-All reads cursors d (j ∷ l) score readers a i = elim (Bool-cases (cursors j == d)) [
    | inl e ↦
        rw (read_loop, e)
          (read_loop-All reads cursors d l (score + (reader.read (readers j)).0)
            (put j (reader.read (readers j)).1 readers)
            (put-All P j (reader.read (readers j)).1 readers (reads j (readers j) (a j)) a) i)
    | inr e ↦ rw (read_loop, e) (a i)
  ]
