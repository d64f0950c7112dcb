-- ===== src/Base/Lists.antt =====
-- Lists over the native numbers, and tables: a table is the list of its rows, oldest first.
use Prim.Native.Nat.{ℕ, zero, suc, ◌+◌}
use mathlib.Core.Path.{◌≡◌, subst}
use mathlib.Core.Logic.{inl, inr}
use mathlib.Core.Bool.{Bool, true}
use mathlib.Core.Option.{Option, none, some}
use mathlib.Core.List.{List, [], ◌∷◌, ◌++◌}
use native.Mathlib.Omega.{arith}
use ctf_website.Base.Compare.{if◌then◌else◌, Bool-cases}

module _ {ℓ} {A : Type ℓ} where
  abbrev pub length : List A → ℕ
  length [] = 0
  length (x ∷ xs) = suc (length xs)

  abbrev pub take : ℕ → List A → List A
  take zero xs = []
  take (suc n) [] = []
  take (suc n) (x ∷ xs) = x ∷ take n xs

  abbrev pub last? : List A → Option A
  last? [] = none
  last? (x ∷ []) = some x
  last? (x ∷ y ∷ ys) = last? (y ∷ ys)

  pub length-append : (xs ys : List A) → length (xs ++ ys) ≡ length xs + length ys
  length-append [] ys = omega arith
  length-append (x ∷ xs) ys = omega (arith, length-append xs ys)

-- A predicate on every element.
abbrev pub All {ℓ κ} : {Row : Type ℓ} → (holds : Row → Type κ) → List Row → Type κ
All holds [] = Unit
All holds (row ∷ rows) = holds row × All holds rows

module _ {ℓ} {A : Type ℓ} where
  -- SELECT ... WHERE test, first row.
  unfoldable pub find_first : (A → Bool) → List A → Option A
  find_first test [] = none
  find_first test (x ∷ xs) = if test x then some x else find_first test xs

  -- UPDATE ... SET change WHERE test.
  unfoldable pub update_where : (A → Bool) → (A → A) → List A → List A
  update_where test change [] = []
  update_where test change (x ∷ xs) = (if test x then change x else x) ∷ update_where test change xs

  -- SELECT ... WHERE test.
  unfoldable pub filter_where : (A → Bool) → List A → List A
  filter_where test [] = []
  filter_where test (x ∷ xs) = let rest = filter_where test xs in if test x then x ∷ rest else rest

  -- DELETE ... WHERE test.
  unfoldable pub delete_where : (A → Bool) → List A → List A
  delete_where test [] = []
  delete_where test (x ∷ xs) = let rest = delete_where test xs in if test x then rest else x ∷ rest

  -- SELECT COUNT(*) ... WHERE test.
  unfoldable pub count_where : (A → Bool) → List A → ℕ
  count_where test [] = 0
  count_where test (x ∷ xs) = (if test x then 1 else 0) + count_where test xs

module _ {ℓ} {A : Type ℓ} where
  pub find_first_sound :
      (test : A → Bool) (xs : List A) (a : A) → find_first test xs ≡ some a → test a ≡ true
  unfolding find_first
  find_first_sound test [] a h = ground arith
  find_first_sound test (x ∷ xs) a h = ground (arith, find_first_sound test xs a)

  pub All-find_first {κ} :
      (P : A → Type κ) (test : A → Bool) (xs : List A) (a : A)
      → All P xs
      → find_first test xs ≡ some a
      → P a
  unfolding find_first
  All-find_first P test [] a hs h = ground arith
  All-find_first P test (x ∷ xs) a hs h = elim (Bool-cases (test x)) [
    | inl here ↦ (let same : x ≡ a = ground arith in subst P same hs.0)
    | inr there ↦ All-find_first P test xs a hs.1 (rw there at h)
  ]

  pub All-append {κ} :
      (P : A → Type κ) (front back : List A) → All P front × All P back → All P (front ++ back)
  All-append P [] back (first, second) = second
  All-append P (x ∷ front) back ((here, first), second) =
      (here, All-append P front back (first, second))

  pub All-delete_where {κ} :
      (P : A → Type κ) (test : A → Bool) (xs : List A) → All P xs → All P (delete_where test xs)
  unfolding delete_where
  All-delete_where P test [] h = tt
  All-delete_where P test (x ∷ xs) h = elim (Bool-cases (test x)) [
    | inl gone ↦ rw gone (All-delete_where P test xs h.1)
    | inr kept ↦ rw kept (h.0, All-delete_where P test xs h.1)
  ]

  pub All-update_where {κ} :
      (P : A → Type κ) (test : A → Bool) (change : A → A) (xs : List A)
      → ((a : A) → P a → test a ≡ true → P (change a))
      → All P xs
      → All P (update_where test change xs)
  unfolding update_where
  All-update_where P test change [] keep h = tt
  All-update_where P test change (x ∷ xs) keep h = elim (Bool-cases (test x)) [
    | inl hit ↦ rw hit (keep x h.0 hit, All-update_where P test change xs keep h.1)
    | inr miss ↦ rw miss (h.0, All-update_where P test change xs keep h.1)
  ]
