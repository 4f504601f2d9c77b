-- ===== src/Wand/Terms.antt =====
-- What `remove_term` and `move_term` make of the first term, and how a reader goes through its
-- documents.
use red_giant.Prelude.{
  ℕ, ◌+◌, ◌≤◌, ◌<◌, ◌≡◌, refl, true, false, List, [], ◌∷◌, map, arith, if◌then◌else◌, ◌==◌, leb,
  length, contains, Bool-cases, inl, inr, ◌||◌,
}
use red_giant.Wand.{partial_sum, remove_loop, move_loop, put}
use red_giant.Wand.Sums.{IsDistinct}

pub remove_loop_lem :
    (ub : ℕ → ℕ) (s : ℕ) (l : List ℕ) → remove_loop ub s l ≡ (l, partial_sum s (map ub l))
unfolding remove_loop partial_sum
remove_loop_lem ub s [] = refl
remove_loop_lem ub s (i ∷ l) = rw (remove_loop_lem ub (s + ub i) l) refl

-- The place of a term among terms in the order of a function.
unfoldable pub insert_term : (ℕ → ℕ) → ℕ → List ℕ → List ℕ
insert_term f t [] = t ∷ []
insert_term f t (i ∷ l) =
    let rest = insert_term f t l in if leb (f t) (f i) then t ∷ i ∷ l else i ∷ rest

add_swap : (s a b : ℕ) → s + a + b ≡ s + b + a
add_swap s a b = omega arith

pub move_loop_lem :
    (cursors ub : ℕ → ℕ) (t s : ℕ) (l : List ℕ)
    → move_loop cursors ub t s l (partial_sum (s + ub t) (map ub l))
      ≡ (insert_term cursors t l, partial_sum s (map ub (insert_term cursors t l)))
unfolding move_loop partial_sum insert_term
move_loop_lem cursors ub t s [] = refl
move_loop_lem cursors ub t s (i ∷ l) = elim (Bool-cases (leb (cursors t) (cursors i))) [
  | inl e ↦ rw e refl
  | inr e ↦ rw (e, add_swap s (ub t) (ub i), move_loop_lem cursors ub t (s + ub i) l) refl
]

pub contains-insert_term :
    (f : ℕ → ℕ) (t j : ℕ) (l : List ℕ) → contains j (insert_term f t l) ≡ (t == j) || contains j l
unfolding insert_term
contains-insert_term f t j [] = refl
contains-insert_term f t j (i ∷ l) = ground (arith, contains-insert_term f t j l)

pub insert_term-IsDistinct :
    (f : ℕ → ℕ) (t : ℕ) (l : List ℕ)
    → contains t l ≡ false
    → IsDistinct l
    → IsDistinct (insert_term f t l)
unfolding insert_term
insert_term-IsDistinct f t [] h d = (refl, tt)
insert_term-IsDistinct f t (i ∷ l) h d = elim (Bool-cases (leb (f t) (f i))) [
  | inl e ↦ rw e (h, d)
  | inr e ↦ rw e (
    ground (arith, contains-insert_term f t i l),
    insert_term-IsDistinct f t l (ground arith) d.1,
  )
]

-- In the order of a function.
abbrev pub IsSorted : (ℕ → ℕ) → List ℕ → Type 0
IsSorted f [] = Unit
IsSorted f (i ∷ l) = ((j : ℕ) → contains j l ≡ true → f i ≤ f j) × IsSorted f l

pub insert_term-IsSorted :
    (f : ℕ → ℕ) (t : ℕ) (l : List ℕ) → IsSorted f l → IsSorted f (insert_term f t l)
unfolding insert_term
insert_term-IsSorted f t [] s = (λ j h. absurd (ground arith), tt)
insert_term-IsSorted f t (i ∷ l) s = elim (Bool-cases (leb (f t) (f i))) [
  | inl e ↦ rw e (λ j h. ground (arith, s.0 j), s)
  | inr e ↦
      rw e
        (λ j h. ground (arith, s.0 j, contains-insert_term f t j l), insert_term-IsSorted f t l s.1)
]

-- A change at a term that is not among the others leaves them sorted.
pub put-IsSorted :
    (f : ℕ → ℕ) (t d : ℕ) (l : List ℕ)
    → contains t l ≡ false
    → IsSorted f l
    → IsSorted (put t d f) l
put-IsSorted f t d [] h s = tt
put-IsSorted f t d (i ∷ l) h s = (
  λ j c. elim (Bool-cases (t == j)) [
    | inl e ↦ absurd (ground arith)
    | inr e ↦ ground (arith, s.0 j c)
  ],
  put-IsSorted f t d l (ground arith) s.1,
)

-- The documents above `c`, where a reader is that was asked for what lies behind `c`.
unfoldable pub skip : ℕ → List ℕ → List ℕ
skip c [] = []
skip c (d ∷ l) = let rest = skip c l in if leb d c then rest else d ∷ l

-- `DocId()` at the end.
abbrev pub first_of : List ℕ → ℕ
first_of [] = 0
first_of (d ∷ l) = d

abbrev pub Ascending : ℕ → List ℕ → Type 0
Ascending b [] = Unit
Ascending b (d ∷ l) = (b < d) × Ascending d l

pub Ascending-weaken : (a b : ℕ) (l : List ℕ) → a ≤ b → Ascending b l → Ascending a l
Ascending-weaken a b [] h s = tt
Ascending-weaken a b (d ∷ l) h s = (omega arith, s.1)

pub contains-Ascending : (b x : ℕ) (l : List ℕ) → Ascending b l → contains x l ≡ true → b < x
contains-Ascending b x [] s h = absurd (ground arith)
contains-Ascending b x (d ∷ l) s h = elim (Bool-cases (d == x)) [
  | inl e ↦ ground arith
  | inr e ↦ ground (arith, contains-Ascending d x l s.1)
]

pub skip-Ascending : (b c : ℕ) (l : List ℕ) → Ascending b l → Ascending c (skip c l)
unfolding skip
skip-Ascending b c [] s = tt
skip-Ascending b c (d ∷ l) s = elim (Bool-cases (leb d c)) [
  | inl e ↦ rw e (skip-Ascending d c l s.1)
  | inr e ↦ rw e (ground arith, s.1)
]

pub contains-skip : (c x : ℕ) (l : List ℕ) → c < x → contains x (skip c l) ≡ contains x l
unfolding skip
contains-skip c x [] h = refl
contains-skip c x (d ∷ l) h = ground (arith, contains-skip c x l)

pub contains-skip_less : (c x : ℕ) (l : List ℕ) → contains x (skip c l) ≡ true → contains x l ≡ true
unfolding skip
contains-skip_less c x [] h = h
contains-skip_less c x (d ∷ l) h = ground (arith, contains-skip_less c x l)

pub length-skip : (c : ℕ) (l : List ℕ) → length (skip c l) ≤ length l
unfolding skip
length-skip c [] = omega arith
length-skip c (d ∷ l) = ground (arith, length-skip c l)

pub first_of_zero : (c : ℕ) (l : List ℕ) → Ascending c l → first_of l ≡ 0 → l ≡ []
first_of_zero c [] s h = refl
first_of_zero c (d ∷ l) s h = absurd (omega arith)

pub first_of_least : (b x : ℕ) (l : List ℕ) → Ascending b l → contains x l ≡ true → first_of l ≤ x
first_of_least b x [] s h = absurd (ground arith)
first_of_least b x (d ∷ l) s h = elim (Bool-cases (d == x)) [
  | inl e ↦ ground arith
  | inr e ↦ ground (arith, contains-Ascending d x l s.1)
]
