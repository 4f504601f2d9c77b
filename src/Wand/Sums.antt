-- ===== src/Wand/Sums.antt =====
-- Sums of upper bounds: along a list of indexes, as `partial_sum` keeps them, and over all readers.
use red_giant.Prelude.{
  ℕ, zero, suc, ◌+◌, ◌≤◌, ◌<◌, ◌≡◌, refl, true, false, List, [], ◌∷◌, map, arith, if◌then◌else◌,
  ◌==◌, ltb, length, take, drop, contains, Bool-cases, inl, inr,
}
use red_giant.Wand.{nth, partial_sum, upper_bound_of}

-- The sum along a list.
abbrev pub sum : (ℕ → ℕ) → List ℕ → ℕ
sum f [] = 0
sum f (i ∷ l) = f i + sum f l

-- The sum over the numbers below `n`.
abbrev pub sum_below : (ℕ → ℕ) → ℕ → ℕ
sum_below f zero = 0
sum_below f (suc n) = f n + sum_below f n

-- No number stands twice.
abbrev pub IsDistinct : List ℕ → Type 0
IsDistinct [] = Unit
IsDistinct (i ∷ l) = (contains i l ≡ false) × IsDistinct l

pub nth-partial_sum :
    (f : ℕ → ℕ) (p s : ℕ) (l : List ℕ)
    → p < length l
    → nth p (partial_sum s (map f l)) ≡ s + sum f (take (suc p) l)
unfolding partial_sum
nth-partial_sum f p s [] h = absurd (omega arith)
nth-partial_sum f zero s (i ∷ l) h = omega arith
nth-partial_sum f (suc p) s (i ∷ l) h = omega (arith, nth-partial_sum f p (s + f i) l (omega arith))

pub length-partial_sum :
    (f : ℕ → ℕ) (s : ℕ) (l : List ℕ) → length (partial_sum s (map f l)) ≡ length l
unfolding partial_sum
length-partial_sum f s [] = refl
length-partial_sum f s (i ∷ l) = omega (arith, length-partial_sum f (s + f i) l)

pub sum-take_mono : (f : ℕ → ℕ) (p q : ℕ) (l : List ℕ) → p ≤ q → sum f (take p l) ≤ sum f (take q l)
sum-take_mono f zero q l h = omega arith
sum-take_mono f (suc p) zero l h = absurd (omega arith)
sum-take_mono f (suc p) (suc q) [] h = omega arith
sum-take_mono f (suc p) (suc q) (i ∷ l) h = omega (arith, sum-take_mono f p q l (omega arith))

-- The function without what it gives at one number.
abbrev pub without : ℕ → (ℕ → ℕ) → ℕ → ℕ
without i f j = if i == j then 0 else f j

sum_below-without_above : (i n : ℕ) (f : ℕ → ℕ) → n ≤ i → sum_below (without i f) n ≡ sum_below f n
sum_below-without_above i zero f h = refl
sum_below-without_above i (suc n) f h = ground (arith, sum_below-without_above i n f (omega arith))

pub sum_below-without :
    (i n : ℕ) (f : ℕ → ℕ) → i < n → sum_below f n ≡ f i + sum_below (without i f) n
sum_below-without i zero f h = absurd (omega arith)
sum_below-without i (suc n) f h = elim (Bool-cases (i == n)) [
  | inl e ↦ ground (arith, sum_below-without_above i n f (ground arith))
  | inr e ↦ ground (arith, sum_below-without i n f (ground arith))
]

sum_below-without_le : (i n : ℕ) (f : ℕ → ℕ) → sum_below f n ≤ f i + sum_below (without i f) n
sum_below-without_le i n f = elim (Bool-cases (ltb i n)) [
  | inl e ↦ omega (arith, sum_below-without i n f (ground arith))
  | inr e ↦ omega (arith, sum_below-without_above i n f (ground arith))
]

pub sum_below_zero : (f : ℕ → ℕ) (n : ℕ) → ((i : ℕ) → i < n → f i ≡ 0) → sum_below f n ≡ 0
sum_below_zero f zero h = refl
sum_below_zero f (suc n) h =
    omega (arith, h n (omega arith), sum_below_zero f n (λ i k. h i (omega arith)))

pub sum_below_mono :
    (f g : ℕ → ℕ) (n : ℕ) → ((i : ℕ) → i < n → f i ≤ g i) → sum_below f n ≤ sum_below g n
sum_below_mono f g zero h = omega arith
sum_below_mono f g (suc n) h =
    omega (arith, h n (omega arith), sum_below_mono f g n (λ i k. h i (omega arith)))

-- What is 0 outside a list adds up to no more than the sum along it.
pub sum_below-le-sum :
    (f g : ℕ → ℕ) (n : ℕ) (l : List ℕ)
    → ((i : ℕ) → i < n → contains i l ≡ false → f i ≡ 0)
    → ((i : ℕ) → contains i l ≡ true → f i ≤ g i)
    → sum_below f n ≤ sum g l
sum_below-le-sum f g n [] z b = omega (arith, sum_below_zero f n (λ i k. z i k refl))
sum_below-le-sum f g n (i ∷ l) z b = omega (
  arith,
  b i (ground arith),
  sum_below-without_le i n f,
  sum_below-le-sum (without i f) g n l (λ j k h. ground (arith, z j)) (λ j h. ground (arith, b j)),
)

-- The sum along a list without repetition is no more than the sum over all.
pub sum-le-sum_below :
    (f g : ℕ → ℕ) (n : ℕ) (l : List ℕ)
    → IsDistinct l
    → ((i : ℕ) → contains i l ≡ true → (i < n) × (f i ≡ g i))
    → sum g l ≤ sum_below f n
sum-le-sum_below f g n [] d h = omega arith
sum-le-sum_below f g n (i ∷ l) d h =
    let p = h i (ground arith) in
    let rest : (j : ℕ) → contains j l ≡ true → (j < n) × (without i f j ≡ g j) =
      λ j c. ground (arith, h j, d.0) in
    omega (arith, p.1, sum_below-without i n f p.0, sum-le-sum_below (without i f) g n l d.1 rest)

-- What `std::upper_bound` promises of a partial sum, from a place on.
pub upper_bound_of-le : (t : ℕ) (l : List ℕ) → upper_bound_of t l ≤ length l
unfolding upper_bound_of
upper_bound_of-le t [] = omega arith
upper_bound_of-le t (x ∷ l) = ground (arith, upper_bound_of-le t l)

pub upper_bound_of-above :
    (t : ℕ) (l : List ℕ) → upper_bound_of t l < length l → t < nth (upper_bound_of t l) l
unfolding upper_bound_of
upper_bound_of-above t [] h = absurd (omega arith)
upper_bound_of-above t (x ∷ l) h = elim (Bool-cases (ltb t x)) [
  | inl e ↦ rw e (ground arith)
  | inr e ↦ rw e (upper_bound_of-above t l (ground arith))
]

pub upper_bound_of-below : (t i : ℕ) (l : List ℕ) → i < upper_bound_of t l → nth i l ≤ t
unfolding upper_bound_of
upper_bound_of-below t i [] h = absurd (omega arith)
upper_bound_of-below t zero (x ∷ l) h = ground arith
upper_bound_of-below t (suc i) (x ∷ l) h = ground (arith, upper_bound_of-below t i l)

suc_add : (m n : ℕ) → suc m + n ≡ suc (m + n)
suc_add m n = omega arith

pub nth-drop : (from i : ℕ) (l : List ℕ) → nth i (drop from l) ≡ nth (from + i) l
nth-drop zero i l = ground arith
nth-drop (suc from) i [] = refl
nth-drop (suc from) i (x ∷ l) = rw (suc_add from i) (nth-drop from i l)
