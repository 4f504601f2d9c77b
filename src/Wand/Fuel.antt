-- ===== src/Wand/Fuel.antt =====
-- The work that a WAND reader has ahead of it: no move adds to it, and the first move of each
-- `step_next` takes some away, which bounds the rounds of `next`.
use red_giant.Prelude.{
  ℕ, zero, suc, ◌+◌, ◌≤◌, ◌<◌, ◌≡◌, refl, sym, ap, true, false, List, [], ◌∷◌, arith, ltb, leb,
  ◌==◌, if◌then◌else◌, length, contains, Bool-cases, inl, inr, ◌⊎◌,
}
use mathlib.Core.Path.{subst}
use red_giant.Reader.{PostingListReader}
use red_giant.Wand.{WandReader, nth, put, step_loop, step_next, pick_term}
use red_giant.Wand.Sums.{IsDistinct, sum_below, sum_below_mono, sum_below-without, without}
use red_giant.Wand.Terms.{
  contains-insert_term, skip, first_of, Ascending, skip-Ascending, length-skip,
}
use red_giant.Wand.Steps.{Walks, IsValid, moved, step_term_lem, moved-IsValid}
use red_giant.Wand.Pivot.{first_term}

pub sum_below_strict :
    (f g : ℕ → ℕ) (n t : ℕ)
    → t < n
    → ((i : ℕ) → i < n → f i ≤ g i)
    → f t < g t
    → sum_below f n < sum_below g n
sum_below_strict f g n t k h s = omega (
  arith,
  sum_below-without t n f k,
  sum_below-without t n g k,
  sum_below_mono (without t f) (without t g) n (λ i b. ground (arith, h i b)),
)

length-skip_mono : (c d : ℕ) (l : List ℕ) → c ≤ d → length (skip d l) ≤ length (skip c l)
unfolding skip
length-skip_mono c d [] h = omega arith
length-skip_mono c d (x ∷ l) h = ground (arith, length-skip_mono c d l h, length-skip d l)

skip_all : (b c : ℕ) (l : List ℕ) → Ascending b l → c < first_of l → skip c l ≡ l
unfolding skip
skip_all b c [] a h = refl
skip_all b c (x ∷ l) a h = ground arith

-- A reader that has been moved to its first document has one less ahead of it.
length-skip_first :
    (b : ℕ) (l : List ℕ)
    → Ascending b l
    → first_of l ≡ 0 ⊎ (suc (length (skip (first_of l) l)) ≤ length l)
unfolding skip
length-skip_first b [] a = inl refl
length-skip_first b (x ∷ l) a = inr (ground (arith, length-skip x l))

pub ==→≡ : (a b : ℕ) → (a == b) ≡ true → a ≡ b
==→≡ a b h = ground arith

-- What is ahead of a term after a move behind `c`, against what was ahead of it before.
abbrev after_move : ℕ → List ℕ → ℕ
after_move c l =
    let rest = skip c l in
    length (skip (first_of rest) rest) + (if first_of rest == 0 then 0 else 1)

after_move_less :
    (c cursor : ℕ) (l : List ℕ)
    → Ascending 0 l
    → cursor ≤ c
    → after_move c l < suc (length (skip cursor l))
after_move_less c cursor l a h =
    let m = length-skip_mono cursor c l h in
    elim (length-skip_first c (skip c l) (skip-Ascending 0 c l a)) [
      | inl z ↦ ground (arith, m, z, length-skip (first_of (skip c l)) (skip c l))
      | inr k ↦ ground (arith, m, k)
    ]

after_move_same :
    (c cursor : ℕ) (l : List ℕ)
    → Ascending 0 l
    → cursor ≡ first_of l
    → c < cursor
    → after_move c l ≡ suc (length (skip cursor l))
after_move_same c cursor l a e h = rw (skip_all 0 c l a (omega (arith, e)), sym e) (ground arith)

module _ {S : Type 0} (reader : PostingListReader S ℕ) (docs : S → List ℕ) where
  -- The documents behind the cursor, and 1 for a term.
  unfoldable pub ahead : WandReader S → ℕ → ℕ
  ahead w i =
      length (skip (w.reader_cursors i) (docs (w.readers i)))
      + (if contains i w.sorted_indexes then 1 else 0)

  unfoldable pub work : WandReader S → ℕ
  work w = sum_below (ahead w) w.readers_size

  module _ (walks : Walks reader docs) where
    ahead-moved :
        (c t : ℕ) (l : List ℕ) (w : WandReader S)
        → w.sorted_indexes ≡ t ∷ l
        → IsValid reader docs w
        → ahead (moved reader docs c t l w) t ≡ after_move c (docs (w.readers t))
    unfolding ahead
    ahead-moved c t l w e v =
        let d : contains t l ≡ false = (subst IsDistinct e v.distinct).0 in
        let cursors = put t (reader.next c (w.readers t)).0 w.reader_cursors in
        ground (
          arith,
          d,
          walks.next_doc c (w.readers t),
          walks.next_rest c (w.readers t),
          contains-insert_term cursors t t l,
        )

    ahead-moved_other :
        (c t i : ℕ) (l : List ℕ) (w : WandReader S)
        → w.sorted_indexes ≡ t ∷ l
        → (t == i) ≡ false
        → ahead (moved reader docs c t l w) i ≡ ahead w i
    unfolding ahead
    ahead-moved_other c t i l w e h =
        let cursors = put t (reader.next c (w.readers t)).0 w.reader_cursors in
        ground (arith, contains-insert_term cursors t i l, ap (contains i) e)

    ahead-term :
        (t : ℕ) (l : List ℕ) (w : WandReader S)
        → w.sorted_indexes ≡ t ∷ l
        → ahead w t ≡ suc (length (skip (w.reader_cursors t) (docs (w.readers t))))
    unfolding ahead
    ahead-term t l w e = ground (arith, ap (contains t) e)

    -- The move of a term.
    pub work-moved :
        (c t : ℕ) (l : List ℕ) (w : WandReader S)
        → w.sorted_indexes ≡ t ∷ l
        → IsValid reader docs w
        → (work (moved reader docs c t l w) ≤ work w)
          × (w.reader_cursors t ≤ c → work (moved reader docs c t l w) < work w)
    unfolding work
    work-moved c t l w e v =
        let live : contains t w.sorted_indexes ≡ true = rw e (ground arith) in
        let k = v.in_range t live in
        let a = v.ascending t k in
        let less = after_move_less c (w.reader_cursors t) (docs (w.readers t)) a in
        let m = ahead-moved c t l w e v in
        let o = ahead-term t l w e in
        let at_most : ahead (moved reader docs c t l w) t ≤ ahead w t =
          elim (Bool-cases (leb (w.reader_cursors t) c)) [
            | inl q ↦ ground (arith, m, o, less)
            | inr q ↦ elim (v.reached t live) [
              | inl z ↦ absurd (ground arith)
              | inr f ↦ omega (
                arith,
                m,
                o,
                after_move_same c (w.reader_cursors t) (docs (w.readers t)) a f (ground arith),
              )
            ]
          ] in
        let each : (i : ℕ) → i < w.readers_size → ahead (moved reader docs c t l w) i ≤ ahead w i =
          λ i b. elim (Bool-cases (t == i)) [
            | inl q ↦ rw (sym (==→≡ t i q)) at_most
            | inr q ↦ omega (arith, ahead-moved_other c t i l w e q)
          ] in
        (
          sum_below_mono _ _ w.readers_size each,
          λ h. sum_below_strict _ _ w.readers_size t k each (omega (arith, m, o, less h)),
        )

    pub work-step_loop :
        (p c : ℕ) (w : WandReader S)
        → IsValid reader docs w
        → work (step_loop reader p c w).1 ≤ work w
    unfolding step_loop pick_term
    work-step_loop zero c w v = omega arith
    work-step_loop (suc p) c w v = elim (Bool-cases (ltb w.threshold (nth p w.acc_upper_bounds))) [
      | inr e ↦ rw (e, step_loop) (omega arith)
      | inl e ↦
          let (t, l, s) = first_term reader docs p w v (ground arith) in
          rw (e, step_loop, step_term_lem reader docs c t l w s v.acc)
            (omega (
              arith,
              (work-moved c t l w s v).0,
              work-step_loop p c (moved reader docs c t l w)
                  (moved-IsValid reader docs walks c t l w s v),
            ))
    ]

    -- `step_next` at a pivot whose sum is above the threshold, with the first term not behind the
    -- cursor.
    pub work-step_next :
        (p c : ℕ) (w : WandReader S)
        → IsValid reader docs w
        → w.threshold < nth p w.acc_upper_bounds
        → w.reader_cursors (nth 0 w.sorted_indexes) ≤ c
        → work (step_next reader p c w).1 < work w
    unfolding step_next step_loop pick_term
    work-step_next p c w v h k =
        let e : ltb w.threshold (nth p w.acc_upper_bounds) ≡ true = ground arith in
        let (t, l, s) = first_term reader docs p w v h in
        rw (e, step_next, step_loop, step_term_lem reader docs c t l w s v.acc)
          (omega (
            arith,
            (work-moved c t l w s v).1
                (ground (arith, ap (λ (q : List ℕ). w.reader_cursors (nth 0 q)) s)),
            work-step_loop p c (moved reader docs c t l w)
                (moved-IsValid reader docs walks c t l w s v),
          ))
