-- ===== src/Common/Lists.antt =====
-- Lists measured by native numbers, under the library's names.
use Prim.Native.Nat.{ℕ, zero, suc, ◌+◌, ◌-◌, ◌<◌, ◌≤◌}
use mathlib.Core.Path.{◌≡◌, refl, sym, ap, ◌∙◌}
use mathlib.Core.List.{List, [], ◌∷◌, ◌++◌}
use mathlib.Core.Option.{Option, none, some}
use native.Mathlib.Omega.{arith}
use native.Mathlib.Decide.{ℕ_discrete}
use mathlib.Core.Logic.{ite}

module _ {ℓ} {A : Type ℓ} where
  abbrev pub length : List A → ℕ
  length [] = 0
  length (x ∷ xs) = suc (length xs)

  abbrev pub get_elem? : List A → ℕ → Option A
  get_elem? [] i = none
  get_elem? (x ∷ xs) zero = some x
  get_elem? (x ∷ xs) (suc i) = get_elem? xs i

  abbrev pub take : ℕ → List A → List A
  take zero xs = []
  take (suc n) [] = []
  take (suc n) (x ∷ xs) = x ∷ take n xs

  abbrev pub drop : ℕ → List A → List A
  drop zero xs = xs
  drop (suc n) [] = []
  drop (suc n) (x ∷ xs) = drop n xs

  abbrev pub All {κ} : (A → Type κ) → List A → Type κ
  All P [] = Unit
  All P (x ∷ xs) = P x × All P xs

  pub length-append : (xs ys : List A) → length (xs ++ ys) ≡ length xs + length ys
  length-append [] ys = omega arith
  length-append (x ∷ xs) ys = omega (arith, length-append xs ys)

  pub take-append-drop : (n : ℕ) (xs : List A) → take n xs ++ drop n xs ≡ xs
  take-append-drop zero xs = refl
  take-append-drop (suc n) [] = refl
  take-append-drop (suc n) (x ∷ xs) = rw (take-append-drop n xs)

  pub length-drop : (k : ℕ) (es : List A) → length (drop k es) ≡ length es - k
  length-drop zero es = omega arith
  length-drop (suc k) [] = omega arith
  length-drop (suc k) (a ∷ es) = length-drop k es ∙ omega arith

  -- Where events are left, dropping one more takes the first of them.
  pub drop-suc :
      (k : ℕ) (es : List A)
      → k < length es
      → (a : A) × ((drop k es ≡ a ∷ drop (suc k) es) × (get_elem? es k ≡ some a))
  drop-suc k [] h = ground arith
  drop-suc zero (a ∷ es) h = (a, (refl, refl))
  drop-suc (suc k) (a ∷ es) h = drop-suc k es (omega arith)

  pub drop_all : (k : ℕ) (es : List A) → length es ≤ k → drop k es ≡ []
  drop_all zero [] h = refl
  drop_all (suc k) [] h = refl
  drop_all zero (a ∷ es) h = ground arith
  drop_all (suc k) (a ∷ es) h = drop_all k es (omega arith)

  drop_nil : (k : ℕ) → drop k [] ≡ []
  drop_nil zero = refl
  drop_nil (suc k) = refl

  pub drop-drop : (k j : ℕ) (es : List A) → drop j (drop k es) ≡ drop (k + j) es
  drop-drop zero j es = let e : j ≡ 0 + j = omega arith in ap (λ n. drop n es) e
  drop-drop (suc k) j [] = drop_nil j ∙ sym (drop_nil (suc k + j))
  drop-drop (suc k) j (a ∷ es) =
      let e : suc k + j ≡ suc (k + j) = omega arith in
      drop-drop k j es ∙ sym (ap (λ n. drop n (a ∷ es)) e)

  pub drop-append : (k : ℕ) (es fs : List A) → k ≤ length es → drop k (es ++ fs) ≡ drop k es ++ fs
  drop-append zero es fs h = refl
  drop-append (suc k) [] fs h = ground arith
  drop-append (suc k) (a ∷ es) fs h = drop-append k es fs (omega arith)

-- How often a number stands in a list.
abbrev pub count : ℕ → List ℕ → ℕ
count a [] = 0
count a (x ∷ xs) = ite (ℕ_discrete x a) 1 0 + count a xs
