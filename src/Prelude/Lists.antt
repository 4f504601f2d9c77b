-- ===== src/Prelude/Lists.antt =====
-- Lists measured by native numbers, under the library's names.
use Prim.Native.Nat.{ℕ, zero, suc, ◌+◌, ◌-◌, ◌≤◌, min}
use mathlib.Core.Path.{◌≡◌, refl, ap}
use mathlib.Core.Bool.{Bool, false, ◌||◌}
use mathlib.Core.List.{List, [], ◌∷◌, ◌++◌}
use native.Mathlib.Omega.{arith}
use red_giant.Prelude.Tests.{◌==◌}

module _ {ℓ} {A : Type ℓ} where
  abbrev pub length : List A → ℕ
  length [] = 0
  length (x ∷ xs) = suc (length xs)

  abbrev pub take : ℕ → List A → List A
  take zero xs = []
  take (suc n) [] = []
  take (suc n) (x ∷ xs) = x ∷ take n xs

  abbrev pub drop : ℕ → List A → List A
  drop zero xs = xs
  drop (suc n) [] = []
  drop (suc n) (x ∷ xs) = drop n xs

  abbrev pub All {κ} : (A → Type κ) → List A → Type κ
  All P [] = Unit
  All P (x ∷ xs) = P x × All P xs

module _ {ℓ} {A : Type ℓ} where
  pub length-append : (xs ys : List A) → length (xs ++ ys) ≡ length xs + length ys
  length-append [] ys = omega arith
  length-append (x ∷ xs) ys = omega (arith, length-append xs ys)

  pub length-take : (n : ℕ) (xs : List A) → length (take n xs) ≡ min n (length xs)
  length-take zero xs = omega arith
  length-take (suc n) [] = omega arith
  length-take (suc n) (x ∷ xs) = omega (arith, length-take n xs)

  pub length-drop : (n : ℕ) (xs : List A) → length (drop n xs) ≡ length xs - n
  length-drop zero xs = omega arith
  length-drop (suc n) [] = omega arith
  length-drop (suc n) (x ∷ xs) = omega (arith, length-drop n xs)

  pub take-append-drop : (n : ℕ) (xs : List A) → take n xs ++ drop n xs ≡ xs
  take-append-drop zero xs = refl
  take-append-drop (suc n) [] = refl
  take-append-drop (suc n) (x ∷ xs) = rw (take-append-drop n xs)

-- Is the number in the list?
abbrev pub contains : ℕ → List ℕ → Bool
contains t [] = false
contains t (x ∷ xs) = (x == t) || contains t xs

module _ {ℓ κ} {A : Type ℓ} (P : A → Type κ) where
  pub All-drop_more : (n m : ℕ) (l : List A) → n ≤ m → All P (drop n l) → All P (drop m l)
  All-drop_more n m [] h a = All-drop_nil n m a
    where
      All-drop_nil : (n m : ℕ) → All P (drop n []) → All P (drop m [])
      All-drop_nil n zero a = tt
      All-drop_nil n (suc m) a = tt
  All-drop_more zero zero (x ∷ l) h a = a
  All-drop_more zero (suc m) (x ∷ l) h a = All-drop_more zero m l (omega arith) a.1
  All-drop_more (suc n) zero (x ∷ l) h a = absurd (omega arith)
  All-drop_more (suc n) (suc m) (x ∷ l) h a = All-drop_more n m l (omega arith) a

  pub All-imp {μ} : {Q : A → Type μ} → ((x : A) → P x → Q x) → (l : List A) → All P l → All Q l
  All-imp f [] a = tt
  All-imp f (x ∷ l) a = (f x a.0, All-imp f l a.1)

module _ {ℓ} {A : Type ℓ} where
  pub drop_append : (a l : List A) → drop (length a) (a ++ l) ≡ l
  drop_append [] l = refl
  drop_append (e ∷ a) l = drop_append a l

  pub take_append : (a l : List A) → take (length a) (a ++ l) ≡ a
  take_append [] l = refl
  take_append (e ∷ a) l = ap (◌∷◌ e) (take_append a l)
