-- ===== src/Store/Rows.antt =====
-- The clauses of the SQL statements of internal/store: WHERE, COUNT(*) and ORDER BY. The rows of
-- one key keep their order in the table, one of the orders that SQL allows.
use mathlib.Core.Path.{subst}
use the_family_vpn.Base.{
  if◌then◌else◌, Bool-cases, if-true, length, All, ℕ, suc, ◌+◌, ◌≤◌, ◌≡◌, refl, sym, ap, ◌∙◌, ◌⊎◌,
  inl, inr, Bool, true, false, ◌&&◌, List, [], ◌∷◌, ◌++◌, arith,
}

module _ {ℓ} {A : Type ℓ} where
  -- WHERE
  unfoldable pub filter : (A → Bool) → List A → List A
  filter p [] = []
  filter p (x ∷ xs) = let rest = filter p xs in if p x then x ∷ rest else rest

  -- SELECT COUNT(*)
  unfoldable pub count : (A → Bool) → List A → ℕ
  count p [] = 0
  count p (x ∷ xs) = let rest = count p xs in if p x then suc rest else rest

  unfoldable pub put_in_order : (A → A → Bool) → A → List A → List A
  put_in_order before x [] = x ∷ []
  put_in_order before x (y ∷ ys) =
      let rest = put_in_order before x ys in if before y x then y ∷ rest else x ∷ y ∷ ys

  -- ORDER BY, for the test of a row that comes strictly before another one
  unfoldable pub order_by : (A → A → Bool) → List A → List A
  order_by before [] = []
  order_by before (x ∷ xs) = put_in_order before x (order_by before xs)

  pub length-filter : (p : A → Bool) (xs : List A) → length (filter p xs) ≡ count p xs
  unfolding filter count
  length-filter p [] = refl
  length-filter p (x ∷ xs) = ground (arith, length-filter p xs)

  pub count_bound : (p : A → Bool) (xs : List A) → count p xs ≤ length xs
  unfolding count
  count_bound p [] = ground arith
  count_bound p (x ∷ xs) = ground (arith, count_bound p xs)

  pub count-filter :
      (p q : A → Bool) (xs : List A) → count p (filter q xs) ≡ count (λ x. q x && p x) xs
  unfolding filter count
  count-filter p q [] = refl
  count-filter p q (x ∷ xs) = ground (arith, count-filter p q xs)

  pub count-append : (p : A → Bool) (xs ys : List A) → count p (xs ++ ys) ≡ count p xs + count p ys
  unfolding count
  count-append p [] ys = omega arith
  count-append p (x ∷ xs) ys = ground (arith, count-append p xs ys)

  -- Sorting keeps every count, so the result has the rows it was given.
  pub count-put_in_order :
      (before : A → A → Bool) (p : A → Bool) (x : A) (ys : List A)
      → count p (put_in_order before x ys) ≡ count p (x ∷ ys)
  unfolding put_in_order count
  count-put_in_order before p x [] = refl
  count-put_in_order before p x (y ∷ ys) = ground (arith, count-put_in_order before p x ys)

  pub count-order_by :
      (before : A → A → Bool) (p : A → Bool) (xs : List A)
      → count p (order_by before xs) ≡ count p xs
  unfolding order_by count
  count-order_by before p [] = refl
  count-order_by before p (x ∷ xs) =
      ground (arith, count-order_by before p xs, count-put_in_order before p x (order_by before xs))

  length-put_in_order :
      (before : A → A → Bool) (x : A) (ys : List A)
      → length (put_in_order before x ys) ≡ suc (length ys)
  unfolding put_in_order
  length-put_in_order before x [] = refl
  length-put_in_order before x (y ∷ ys) = ground (arith, length-put_in_order before x ys)

  pub length-order_by :
      (before : A → A → Bool) (xs : List A) → length (order_by before xs) ≡ length xs
  unfolding order_by
  length-order_by before [] = refl
  length-order_by before (x ∷ xs) =
      omega (arith, length-put_in_order before x (order_by before xs), length-order_by before xs)

module _ {ℓ κ μ} {A : Type ℓ} {P : A → Type κ} {Q : A → Type μ} where
  pub All-implied : (xs : List A) → ((x : A) → P x → Q x) → All P xs → All Q xs
  All-implied [] implies holds = tt
  All-implied (x ∷ xs) implies (holds, rest) = (implies x holds, All-implied xs implies rest)

module _ {ℓ κ} {A : Type ℓ} (P : A → Type κ) where
  pub All-put_in_order :
      (before : A → A → Bool) (x : A) (ys : List A)
      → P x
      → All P ys
      → All P (put_in_order before x ys)
  unfolding put_in_order
  All-put_in_order before x [] here there = (here, there)
  All-put_in_order before x (y ∷ ys) here (first, rest) =
      by_test (before y x) (All-put_in_order before x ys here rest)
    where
      by_test :
          (b : Bool)
          → All P (put_in_order before x ys)
          → All P (if b then y ∷ put_in_order before x ys else x ∷ y ∷ ys)
      by_test true ih = (first, ih)
      by_test false ih = (here, (first, rest))

  pub All-filter : (p : A → Bool) (xs : List A) → All P xs → All P (filter p xs)
  unfolding filter
  All-filter p [] holds = holds
  All-filter p (x ∷ xs) (holds, rest) = by_test (p x) (All-filter p xs rest)
    where
      by_test :
          (b : Bool) → All P (filter p xs) → All P (if b then x ∷ filter p xs else filter p xs)
      by_test true ih = (holds, ih)
      by_test false ih = ih

pub filter-holds {ℓ} :
    {A : Type ℓ} (p : A → Bool) (xs : List A) → All (λ e. p e ≡ true) (filter p xs)
unfolding filter
filter-holds p [] = tt
filter-holds p (x ∷ xs) = by_test (Bool-cases (p x)) (filter-holds p xs)
  where
    by_test :
        (p x ≡ true) ⊎ (p x ≡ false)
        → All (λ e. p e ≡ true) (filter p xs)
        → All (λ e. p e ≡ true) (if p x then x ∷ filter p xs else filter p xs)
    by_test (inl holds) ih =
        subst (λ b. All (λ e. p e ≡ true) (if b then x ∷ filter p xs else filter p xs)) (sym holds)
          (holds, ih)
    by_test (inr fails) ih =
        subst (λ b. All (λ e. p e ≡ true) (if b then x ∷ filter p xs else filter p xs)) (sym fails)
          ih

module _ {ℓ} {A : Type ℓ} where
  -- A row that comes strictly before all the others comes first.
  pub order_by-append :
      (before : A → A → Bool) (xs : List A) (r : A)
      → All (λ x. before r x ≡ true) xs
      → order_by before (xs ++ r ∷ []) ≡ r ∷ order_by before xs
  unfolding order_by put_in_order
  order_by-append before [] r newest = refl
  order_by-append before (x ∷ xs) r (first, newest) =
      ap (put_in_order before x) (order_by-append before xs r newest)
      ∙ if-true (before r x) _ _ first

  pub filter-append :
      (p : A → Bool) (xs : List A) (r : A)
      → filter p (xs ++ r ∷ []) ≡ (if p r then filter p xs ++ r ∷ [] else filter p xs)
  unfolding filter
  filter-append p [] r = refl
  filter-append p (x ∷ xs) r = by_tests (p x) (p r) (filter-append p xs r)
    where
      by_tests :
          (b c : Bool)
          → filter p (xs ++ r ∷ []) ≡ (if c then filter p xs ++ r ∷ [] else filter p xs)
          → (if b then x ∷ filter p (xs ++ r ∷ []) else filter p (xs ++ r ∷ [])) ≡ (
              if c
              then (if b then x ∷ filter p xs else filter p xs) ++ r ∷ []
              else (if b then x ∷ filter p xs else filter p xs))
      by_tests true true ih = ap (◌∷◌ x) ih
      by_tests true false ih = ap (◌∷◌ x) ih
      by_tests false true ih = ih
      by_tests false false ih = ih

  -- The rows that a query takes in an order, after a row that comes before all of them
  pub order_by-filter_append :
      (before : A → A → Bool) (p : A → Bool) (xs : List A) (r : A)
      → All (λ x. before r x ≡ true) xs
      → order_by before (filter p (xs ++ r ∷ []))
        ≡ (if p r then r ∷ order_by before (filter p xs) else order_by before (filter p xs))
  order_by-filter_append before p xs r newest =
      ap (order_by before) (filter-append p xs r) ∙ by_test (p r)
    where
      by_test :
          (b : Bool)
          → order_by before (if b then filter p xs ++ r ∷ [] else filter p xs)
            ≡ (if b then r ∷ order_by before (filter p xs) else order_by before (filter p xs))
      by_test true =
          order_by-append before (filter p xs) r (All-filter (λ x. before r x ≡ true) p xs newest)
      by_test false = refl
