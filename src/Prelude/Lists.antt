-- ===== src/Prelude/Lists.antt =====
-- Lists measured by native numbers, under the library's names, and tests on lists.
use Prim.Native.Nat.{ℕ, zero, suc, ◌+◌, ◌-◌, ◌≤◌}
use mathlib.Core.Path.{◌≡◌, refl, sym, ap}
use mathlib.Core.Logic.{inl, inr}
use mathlib.Core.Bool.{Bool, true, false, ◌&&◌, ◌||◌}
use mathlib.Core.List.{List, [], ◌∷◌, ◌++◌}
use native.Mathlib.Omega.{arith}
use teploy_arcade.Prelude.Tests.{Bool-cases, Key, ◌==◌, if◌then◌else◌}

-- A Go string whose bytes the program looks at.
abbrev pub Bytes : Type 0
Bytes = List ℕ

module _ {ℓ} {A : Type ℓ} where
  abbrev pub length : List A → ℕ
  length [] = 0
  length (x ∷ xs) = suc (length xs)

  abbrev pub take : ℕ → List A → List A
  take zero xs = []
  take (suc n) [] = []
  take (suc n) (x ∷ xs) = x ∷ take n xs

  abbrev pub drop : ℕ → List A → List A
  drop zero xs = xs
  drop (suc n) [] = []
  drop (suc n) (x ∷ xs) = drop n xs

  -- The last `n` entries: `xs[len(xs)-n:]`, or all of a shorter list.
  abbrev pub take_last : ℕ → List A → List A
  take_last n xs = drop (length xs - n) xs

  pub length-append : (xs ys : List A) → length (xs ++ ys) ≡ length xs + length ys
  length-append [] ys = omega arith
  length-append (x ∷ xs) ys = omega (arith, length-append xs ys)

  pub length-drop : (n : ℕ) (xs : List A) → length (drop n xs) ≡ length xs - n
  length-drop zero xs = omega arith
  length-drop (suc n) [] = omega arith
  length-drop (suc n) (x ∷ xs) = omega (arith, length-drop n xs)

  pub length-take_last-le : (n : ℕ) (xs : List A) → length (take_last n xs) ≤ n
  length-take_last-le n xs = omega (arith, length-drop (length xs - n) xs)

  pub drop-append : (n : ℕ) (xs ys : List A) → n ≤ length xs → drop n (xs ++ ys) ≡ drop n xs ++ ys
  drop-append zero xs ys h = refl
  drop-append (suc n) [] ys h = absurd (omega arith)
  drop-append (suc n) (x ∷ xs) ys h = drop-append n xs ys (omega arith)

  pub take-nil : (n : ℕ) → take n [] ≡ []
  take-nil zero = refl
  take-nil (suc n) = refl

  pub drop-nil : (n : ℕ) → drop n [] ≡ []
  drop-nil zero = refl
  drop-nil (suc n) = refl

  pub drop-drop : (m n : ℕ) (xs : List A) → drop m (drop n xs) ≡ drop (n + m) xs
  drop-drop m zero xs = ap (λ k. drop k xs) (omega arith)
  drop-drop m (suc n) [] = rw (drop-nil m, drop-nil (suc n + m))
  drop-drop m (suc n) (x ∷ xs) =
      let step : suc n + m ≡ suc (n + m) = omega arith in rw step (drop-drop m n xs)

  -- The entries that pass a test.
  unfoldable pub retain : (A → Bool) → List A → List A
  retain p [] = []
  retain p (x ∷ xs) = let rest = retain p xs in if p x then x ∷ rest else rest

  pub length-retain-le : (p : A → Bool) (xs : List A) → length (retain p xs) ≤ length xs
  unfolding retain
  length-retain-le p [] = omega arith
  length-retain-le p (x ∷ xs) = ground (arith, length-retain-le p xs)

  unfoldable pub any : (A → Bool) → List A → Bool
  any p [] = false
  any p (x ∷ xs) = p x || any p xs

  pub any-append : (p : A → Bool) (xs ys : List A) → any p (xs ++ ys) ≡ (any p xs || any p ys)
  unfolding any
  any-append p [] ys = refl
  any-append p (x ∷ xs) ys = ground (arith, any-append p xs ys)

  unfoldable pub all : (A → Bool) → List A → Bool
  all p [] = true
  all p (x ∷ xs) = p x && all p xs

  -- A predicate on every entry; it computes to a tuple.
  abbrev pub All {κ} : (A → Type κ) → List A → Type κ
  All P [] = Unit
  All P (x ∷ xs) = P x × All P xs

module _ {ℓ κ} {A : Type ℓ} (P : A → Type κ) where
  pub append-All : (xs ys : List A) → All P xs → All P ys → All P (xs ++ ys)
  append-All [] ys p q = q
  append-All (x ∷ xs) ys p q = (p.0, append-All xs ys p.1 q)

  pub retain-All : (p : A → Bool) (xs : List A) → All P xs → All P (retain p xs)
  unfolding retain
  retain-All p [] h = h
  retain-All p (x ∷ xs) h = elim (Bool-cases (p x)) [
    | inl kept ↦ rw kept (h.0, retain-All p xs h.1)
    | inr out ↦ rw out (retain-All p xs h.1)
  ]

-- Sets as lists without repetition.
module _ {ℓ} {A : Type ℓ} ⦃e : Key A⦄ where
  unfoldable pub contains : List A → A → Bool
  contains [] a = false
  contains (x ∷ xs) a = x == a || contains xs a

  unfoldable pub add : A → List A → List A
  add a xs = if contains xs a then xs else a ∷ xs

  unfoldable pub delete : A → List A → List A
  delete a [] = []
  delete a (x ∷ xs) = let rest = delete a xs in if x == a then rest else x ∷ rest

  abbrev pub Distinct : List A → Type 0
  Distinct [] = Unit
  Distinct (x ∷ xs) = (contains xs x ≡ false) × Distinct xs

  pub contains-add : (a b : A) (xs : List A) → contains (add a xs) b ≡ (a == b || contains xs b)
  unfolding contains add
  contains-add a b xs = ground (arith, e.same_iff a b)

  pub contains-delete :
      (a b : A) (xs : List A) → contains (delete a xs) b ≡ (if a == b then false else contains xs b)
  unfolding contains delete
  contains-delete a b [] = ground arith
  contains-delete a b (x ∷ xs) =
      ground (arith, e.same_iff a b, e.same_iff x a, e.same_iff x b, contains-delete a b xs)

  pub delete_absent : (a : A) (xs : List A) → contains xs a ≡ false → delete a xs ≡ xs
  unfolding contains delete
  delete_absent a [] away = refl
  delete_absent a (x ∷ xs) away = elim (Bool-cases (x == a)) [
    | inl here ↦ absurd (ground arith)
    | inr other ↦ rw (other, delete_absent a xs (rw other at away)) refl
  ]

  pub length-delete :
      (a : A) (xs : List A)
      → Distinct xs
      → contains xs a ≡ true
      → suc (length (delete a xs)) ≡ length xs
  unfolding contains delete
  length-delete a [] d there = absurd (ground arith)
  length-delete a (x ∷ xs) d there = elim (Bool-cases (x == a)) [
    | inl here ↦
        let same : x ≡ a = (e.same_iff x a).0 here in
        rw here (ap (λ ys. suc (length ys)) (delete_absent a xs (rw (sym same) d.0)))
    | inr other ↦ rw other (ap suc (length-delete a xs d.1 (rw other at there)))
  ]

  pub length-add :
      (a : A) (xs : List A) → contains xs a ≡ false → length (add a xs) ≡ suc (length xs)
  unfolding add
  length-add a xs fresh = rw fresh refl

  pub add-Distinct : (a : A) (xs : List A) → Distinct xs → Distinct (add a xs)
  unfolding add
  add-Distinct a xs d = ground arith

  pub delete-Distinct : (a : A) (xs : List A) → Distinct xs → Distinct (delete a xs)
  unfolding delete
  delete-Distinct a [] d = tt
  delete-Distinct a (x ∷ xs) d = ground (arith, delete-Distinct a xs d.1, contains-delete a x xs)

  pub members-All {κ} :
      (P : A → Type κ) (xs : List A) → ((a : A) → contains xs a ≡ true → P a) → All P xs
  unfolding contains
  members-All P [] each = tt
  members-All P (x ∷ xs) each =
      (each x (ground (arith, e.same_iff x x)), members-All P xs (λ a there. each a (ground arith)))
