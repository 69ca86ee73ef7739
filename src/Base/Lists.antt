-- ===== src/Base/Lists.antt =====
-- Lists measured by native numbers, under the library's names, and lists of numeric ids.
use Prim.Native.Nat.{ℕ, zero, suc, ◌+◌, ◌-◌, min}
use mathlib.Core.Path.{◌≡◌, refl, ap}
use mathlib.Core.Bool.{Bool, true, false, ◌||◌}
use mathlib.Core.Option.{Option, none, some}
use mathlib.Core.List.{List, [], ◌∷◌, ◌++◌}
use native.Mathlib.Omega.{arith}
use local_llms.Base.Tests.{◌==◌, if◌then◌else◌}

module _ {ℓ} {A : Type ℓ} where
  abbrev pub length : List A → ℕ
  length [] = 0
  length (x ∷ xs) = suc (length xs)

  abbrev pub take : ℕ → List A → List A
  take zero xs = []
  take (suc n) [] = []
  take (suc n) (x ∷ xs) = x ∷ take n xs

  abbrev pub drop : ℕ → List A → List A
  drop zero xs = xs
  drop (suc n) [] = []
  drop (suc n) (x ∷ xs) = drop n xs

  abbrev pub get_elem? : List A → ℕ → Option A
  get_elem? [] i = none
  get_elem? (x ∷ xs) zero = some x
  get_elem? (x ∷ xs) (suc i) = get_elem? xs i

  pub length-append : (xs ys : List A) → length (xs ++ ys) ≡ length xs + length ys
  length-append [] ys = omega arith
  length-append (x ∷ xs) ys = omega (arith, length-append xs ys)

  pub take-append-drop : (n : ℕ) (xs : List A) → take n xs ++ drop n xs ≡ xs
  take-append-drop zero xs = refl
  take-append-drop (suc n) [] = refl
  take-append-drop (suc n) (x ∷ xs) = ap (◌∷◌ x) (take-append-drop n xs)

  pub length-take : (n : ℕ) (xs : List A) → length (take n xs) ≡ min n (length xs)
  length-take zero xs = omega arith
  length-take (suc n) [] = omega arith
  length-take (suc n) (x ∷ xs) = omega (arith, length-take n xs)

  pub length-drop : (n : ℕ) (xs : List A) → length (drop n xs) ≡ length xs - n
  length-drop zero xs = omega arith
  length-drop (suc n) [] = omega arith
  length-drop (suc n) (x ∷ xs) = omega (arith, length-drop n xs)

module _ {ℓ κ} {A : Type ℓ} where
  abbrev pub All : (A → Type κ) → List A → Type κ
  All P [] = Unit
  All P (x ∷ xs) = P x × All P xs

  pub All-append : (P : A → Type κ) (xs ys : List A) → All P xs → All P ys → All P (xs ++ ys)
  All-append P [] ys _ k = k
  All-append P (x ∷ xs) ys (p, h) k = (p, All-append P xs ys h k)

-- `Array.includes` on numeric ids.
abbrev pub includes : ℕ → List ℕ → Bool
includes i [] = false
includes i (x ∷ xs) = x == i || includes i xs

-- Removes the first occurrence, as `indexOf` and `splice` do.
abbrev pub erase : ℕ → List ℕ → List ℕ
erase i [] = []
erase i (x ∷ xs) = if x == i then xs else x ∷ erase i xs

abbrev pub Distinct : List ℕ → Type 0
Distinct [] = Unit
Distinct (x ∷ xs) = (includes x xs ≡ false) × Distinct xs

pub includes-erase-false :
    (i j : ℕ) (xs : List ℕ) → includes j xs ≡ false → includes j (erase i xs) ≡ false
includes-erase-false i j [] h = refl
includes-erase-false i j (x ∷ xs) h = ground (arith, includes-erase-false i j xs)

pub includes-erase_self : (i : ℕ) (xs : List ℕ) → Distinct xs → includes i (erase i xs) ≡ false
includes-erase_self i [] h = refl
includes-erase_self i (x ∷ xs) h = ground (arith, includes-erase_self i xs)

pub erase-Distinct : (i : ℕ) (xs : List ℕ) → Distinct xs → Distinct (erase i xs)
erase-Distinct i [] h = tt
erase-Distinct i (x ∷ xs) h =
    ground (arith, erase-Distinct i xs h.1, includes-erase-false i x xs h.0)

pub length-erase :
    (i : ℕ) (xs : List ℕ) → includes i xs ≡ true → suc (length (erase i xs)) ≡ length xs
length-erase i [] h = ground arith
length-erase i (x ∷ xs) h = ground (arith, length-erase i xs)

pub erase_absent : (i : ℕ) (xs : List ℕ) → includes i xs ≡ false → erase i xs ≡ xs
erase_absent i [] h = refl
erase_absent i (x ∷ xs) h = ground (arith, erase_absent i xs)
