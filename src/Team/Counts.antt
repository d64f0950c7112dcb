-- ===== src/Team/Counts.antt =====
-- How an update of the rows that pass one test changes the number of those that pass another.
-- Rows that pass a test, and an update of them.
use ctf_website.Base.{
  suc, ◌≤◌, ◌≡◌, inl, inr, refl, Bool, true, some, List, [], ◌∷◌, arith, Bool-cases, All,
  find_first, update_where, count_where,
}

module _ {A : Type 0} (test active : A → Bool) (change : A → A) where
  pub count_unchanged :
      (xs : List A)
      → count_where test xs ≤ 0
      → count_where active (update_where test change xs) ≡ count_where active xs
  unfolding count_where update_where
  count_unchanged [] h = refl
  count_unchanged (x ∷ xs) h = ground (arith, count_unchanged xs)

  pub count_loses_one :
      (xs : List A)
      → count_where test xs ≤ 1
      → count_where active xs ≤ suc (count_where active (update_where test change xs))
  unfolding count_where update_where
  count_loses_one [] h = omega arith
  count_loses_one (x ∷ xs) h = ground (arith, count_loses_one xs, count_unchanged xs)

  pub count_kept :
      (xs : List A)
      → All (λ x. test x ≡ true → active x ≡ true → active (change x) ≡ true) xs
      → count_where active xs ≤ count_where active (update_where test change xs)
  unfolding count_where update_where
  count_kept [] h = omega arith
  count_kept (x ∷ xs) (keep, h) = ground (arith, count_kept xs h, keep)

module _ {A : Type 0} (test : A → Bool) (target : A) where
  pub no_row : (xs : List A) → count_where test xs ≤ 0 → All (λ x. test x ≡ true → x ≡ target) xs
  unfolding count_where
  no_row [] h = tt
  no_row (x ∷ xs) h = (λ hit. absurd (ground arith), no_row xs (omega arith))

  pub only_row :
      (xs : List A)
      → count_where test xs ≤ 1
      → find_first test xs ≡ some target
      → All (λ x. test x ≡ true → x ≡ target) xs
  unfolding count_where find_first
  only_row [] h found = tt
  only_row (x ∷ xs) h found = elim (Bool-cases (test x)) [
    | inl hit ↦ (λ _. ground (arith, hit), no_row xs (ground arith))
    | inr miss ↦ (λ hit. absurd (ground arith), only_row xs (ground arith) (ground arith))
  ]

  pub All-map : {P Q : A → Type 0} → ((x : A) → P x → Q x) → (xs : List A) → All P xs → All Q xs
  All-map more [] h = tt
  All-map more (x ∷ xs) h = (more x h.0, All-map more xs h.1)
