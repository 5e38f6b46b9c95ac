-- ===== src/Base/Lists.antt =====
-- Lists measured by the native numbers and filtered by Boolean tests.
use Prim.Native.Nat.{ℕ, zero, suc, ◌+◌, ◌≤◌, min, max}
use mathlib.Core.Path.{◌≡◌, refl, sym, ap, subst}
use mathlib.Core.Logic.{◌⊎◌, inl, inr}
use mathlib.Core.Bool.{Bool, true, false, ◌&&◌, ◌||◌}
use mathlib.Core.Option.{Option, none, some}
use mathlib.Core.List.{List, [], ◌∷◌, ◌++◌, map}
use native.Mathlib.Omega.{arith}
use sendself.Base.Tests.{if◌then◌else◌, Bool-cases}

module _ {ℓ} {A : Type ℓ} where
  abbrev pub length : List A → ℕ
  length [] = 0
  length (x ∷ xs) = suc (length xs)

  abbrev pub take : ℕ → List A → List A
  take zero xs = []
  take (suc n) [] = []
  take (suc n) (x ∷ xs) = x ∷ take n xs

  abbrev pub drop : ℕ → List A → List A
  drop zero xs = xs
  drop (suc n) [] = []
  drop (suc n) (x ∷ xs) = drop n xs

  abbrev pub filter : (A → Bool) → List A → List A
  filter p [] = []
  filter p (x ∷ xs) = if p x then x ∷ filter p xs else filter p xs

  abbrev pub any : (A → Bool) → List A → Bool
  any p [] = false
  any p (x ∷ xs) = p x || any p xs

  abbrev pub all : (A → Bool) → List A → Bool
  all p [] = true
  all p (x ∷ xs) = p x && all p xs

  abbrev pub repeat : ℕ → A → List A
  repeat zero x = []
  repeat (suc n) x = x ∷ repeat n x

  -- The first row that satisfies the test.
  abbrev pub find : (A → Bool) → List A → Option A
  find p [] = none
  find p (x ∷ xs) = if p x then some x else find p xs

  -- `UPDATE … SET f WHERE p`.
  abbrev pub update_where : (A → Bool) → (A → A) → List A → List A
  update_where p f [] = []
  update_where p f (x ∷ xs) = (if p x then f x else x) ∷ update_where p f xs

  abbrev pub count : (A → Bool) → List A → ℕ
  count p [] = 0
  count p (x ∷ xs) = if p x then suc (count p xs) else count p xs

  abbrev pub sum_by : (A → ℕ) → List A → ℕ
  sum_by f [] = 0
  sum_by f (x ∷ xs) = f x + sum_by f xs

  -- `MAX(n, MAX(f))`
  abbrev pub fold_max : ℕ → (A → ℕ) → List A → ℕ
  fold_max n f [] = n
  fold_max n f (x ∷ xs) = max (f x) (fold_max n f xs)

module _ {ℓ} {A : Type ℓ} (before : A → A → Bool) where
  unfoldable pub insert_sorted : A → List A → List A
  insert_sorted x [] = x ∷ []
  insert_sorted x (y ∷ ys) = if before y x then y ∷ insert_sorted x ys else x ∷ y ∷ ys

  -- `ORDER BY`: stable, the rows that `before` puts first come first.
  unfoldable pub order_by : List A → List A
  unfolding insert_sorted
  order_by [] = []
  order_by (x ∷ xs) = insert_sorted x (order_by xs)

  any-insert_sorted :
      (p : A → Bool) (x : A) (xs : List A) → any p (insert_sorted x xs) ≡ (p x || any p xs)
  unfolding insert_sorted
  any-insert_sorted p x [] = refl
  any-insert_sorted p x (y ∷ ys) = ground (arith, any-insert_sorted p x ys)

  -- Ordering loses no row and makes none up.
  pub any-order_by : (p : A → Bool) (xs : List A) → any p (order_by xs) ≡ any p xs
  unfolding order_by
  any-order_by p [] = refl
  any-order_by p (x ∷ xs) = ground (arith, any-insert_sorted p x (order_by xs), any-order_by p xs)

module _ {ℓ κ} {A : Type ℓ} where
  -- Every element satisfies the predicate.
  abbrev pub All : (A → Type κ) → List A → Type κ
  All P [] = Unit
  All P (x ∷ xs) = P x × All P xs

-- A list is empty or not.
pub list_cases {ℓ} :
    {A : Type ℓ} (xs : List A) → (xs ≡ []) ⊎ ((y : A) × (ys : List A) × (xs ≡ y ∷ ys))
list_cases [] = inl refl
list_cases (y ∷ ys) = inr (y, ys, refl)

module _ {ℓ} {A : Type ℓ} where
  pub length-append : (xs ys : List A) → length (xs ++ ys) ≡ length xs + length ys
  length-append [] ys = omega arith
  length-append (x ∷ xs) ys = omega (arith, length-append xs ys)

  pub length-take : (n : ℕ) (xs : List A) → length (take n xs) ≡ min n (length xs)
  length-take zero xs = omega arith
  length-take (suc n) [] = omega arith
  length-take (suc n) (x ∷ xs) = omega (arith, length-take n xs)

  pub take-take-suc : (n : ℕ) (xs : List A) → take n (take (suc n) xs) ≡ take n xs
  take-take-suc zero xs = refl
  take-take-suc (suc n) [] = refl
  take-take-suc (suc n) (x ∷ xs) = ap (λ ys. x ∷ ys) (take-take-suc n xs)

  pub take_all : (n : ℕ) (xs : List A) → length (take (suc n) xs) ≤ n → take (suc n) xs ≡ xs
  take_all n [] h = refl
  take_all zero (x ∷ xs) h = absurd (omega (arith, h))
  take_all (suc n) (x ∷ xs) h = ap (λ ys. x ∷ ys) (take_all n xs (omega (arith, h)))

  pub length-map {κ} : {B : Type κ} (xs : List A) (f : A → B) → length (map f xs) ≡ length xs
  length-map [] f = refl
  length-map (x ∷ xs) f = omega (arith, length-map xs f)

  pub any-append : (p : A → Bool) (xs ys : List A) → any p (xs ++ ys) ≡ (any p xs || any p ys)
  any-append p [] ys = refl
  any-append p (x ∷ xs) ys = ground (arith, any-append p xs ys)

  pub count-append : (p : A → Bool) (xs ys : List A) → count p (xs ++ ys) ≡ count p xs + count p ys
  count-append p [] ys = omega arith
  count-append p (x ∷ xs) ys = ground (arith, count-append p xs ys)

  pub any-eq-false_of_count : (p : A → Bool) (xs : List A) → count p xs ≡ 0 → any p xs ≡ false
  any-eq-false_of_count p [] h = refl
  any-eq-false_of_count p (x ∷ xs) h = ground (arith, any-eq-false_of_count p xs)

  -- Filtering by a test that `q` refutes leaves nothing that satisfies `q`.
  pub any-filter_disjoint :
      (p q : A → Bool)
      → ((a : A) → q a ≡ true → p a ≡ false)
      → (xs : List A) → any q (filter p xs) ≡ false
  any-filter_disjoint p q h [] = refl
  any-filter_disjoint p q h (x ∷ xs) = ground (arith, h x, any-filter_disjoint p q h xs)

  -- Filtering by a test that `q` implies keeps what satisfies `q`.
  pub any-filter_implied :
      (p q : A → Bool)
      → ((a : A) → q a ≡ true → p a ≡ true)
      → (xs : List A) → any q (filter p xs) ≡ any q xs
  any-filter_implied p q h [] = refl
  any-filter_implied p q h (x ∷ xs) = ground (arith, h x, any-filter_implied p q h xs)

  pub filter-filter_implied :
      (p q : A → Bool)
      → ((a : A) → q a ≡ true → p a ≡ true)
      → (xs : List A) → filter q (filter p xs) ≡ filter q xs
  filter-filter_implied p q h [] = refl
  filter-filter_implied p q h (x ∷ xs) = ground (arith, h x, filter-filter_implied p q h xs)

  pub fold_max-ge : (n : ℕ) (f : A → ℕ) (xs : List A) → n ≤ fold_max n f xs
  fold_max-ge n f [] = omega arith
  fold_max-ge n f (x ∷ xs) = omega (arith, fold_max-ge n f xs)

  -- What the fold is at least.
  pub All-fold_max :
      (n m : ℕ) (f : A → ℕ) (xs : List A) → fold_max n f xs ≤ m → All (λ x. f x ≤ m) xs
  All-fold_max n m f [] h = tt
  All-fold_max n m f (x ∷ xs) h = (omega (arith, h), All-fold_max n m f xs (omega (arith, h)))

  module _ {κ} (P : A → Type κ) where
    pub All-filter : (p : A → Bool) (xs : List A) → All P xs → All P (filter p xs)
    All-filter p [] h = tt
    All-filter p (x ∷ xs) h = elim (Bool-cases (p x)) [
      | inl e ↦ rw e (h.0, All-filter p xs h.1)
      | inr e ↦ rw e (All-filter p xs h.1)
    ]

    pub All-insert_sorted :
        (before : A → A → Bool) (x : A) (xs : List A)
        → P x
        → All P xs
        → All P (insert_sorted before x xs)
    unfolding insert_sorted
    All-insert_sorted before x [] p h = (p, tt)
    All-insert_sorted before x (y ∷ ys) p h = elim (Bool-cases (before y x)) [
      | inl e ↦ rw e (h.0, All-insert_sorted before x ys p h.1)
      | inr e ↦ rw e (p, h)
    ]

    pub All-order_by : (before : A → A → Bool) (xs : List A) → All P xs → All P (order_by before xs)
    unfolding order_by
    All-order_by before [] h = tt
    All-order_by before (x ∷ xs) h =
        All-insert_sorted before x (order_by before xs) h.0 (All-order_by before xs h.1)

    pub All-take : (n : ℕ) (xs : List A) → All P xs → All P (take n xs)
    All-take zero xs h = tt
    All-take (suc n) [] h = tt
    All-take (suc n) (x ∷ xs) h = (h.0, All-take n xs h.1)

    pub All-append : (xs ys : List A) → All P xs → All P ys → All P (xs ++ ys)
    All-append [] ys h k = k
    All-append (x ∷ xs) ys h k = (h.0, All-append xs ys h.1 k)

    pub All-map {ι} : (Q : A → Type ι) → ((a : A) → P a → Q a) → (xs : List A) → All P xs → All Q xs
    All-map Q f [] h = tt
    All-map Q f (x ∷ xs) h = (f x h.0, All-map Q f xs h.1)

    pub All-update_where :
        (p : A → Bool) (f : A → A)
        → ((a : A) → p a ≡ true → P a → P (f a))
        → (xs : List A) → All P xs
        → All P (update_where p f xs)
    All-update_where p f k [] h = tt
    All-update_where p f k (x ∷ xs) h = elim (Bool-cases (p x)) [
      | inl e ↦ rw e (k x e h.0, All-update_where p f k xs h.1)
      | inr e ↦ rw e (h.0, All-update_where p f k xs h.1)
    ]

    -- A row that a test finds has what holds of every row.
    pub All-find : (p : A → Bool) (xs : List A) (a : A) → All P xs → find p xs ≡ some a → P a
    All-find p [] a h e = cc
    All-find p (x ∷ xs) a h e = elim (Bool-cases (p x)) [
      | inl q ↦ subst P (cc (rw q at e)) h.0
      | inr q ↦ All-find p xs a h.1 (rw q at e)
    ]

  -- A row that a test finds satisfies the test.
  pub find-true : (p : A → Bool) (xs : List A) (a : A) → find p xs ≡ some a → p a ≡ true
  find-true p [] a e = cc
  find-true p (x ∷ xs) a e = elim (Bool-cases (p x)) [
    | inl q ↦ subst (λ y. p y ≡ true) (cc (rw q at e)) q
    | inr q ↦ find-true p xs a (rw q at e)
  ]

  -- A row that one test finds and that satisfies another.
  pub any-find :
      (p q : A → Bool) (xs : List A) (a : A) → find q xs ≡ some a → p a ≡ true → any p xs ≡ true
  any-find p q [] a e h = cc
  any-find p q (x ∷ xs) a e h = elim (Bool-cases (q x)) [
    | inl k ↦
        let same : p x ≡ true = subst (λ y. p y ≡ true) (sym (cc (rw k at e))) h in rw same refl
    | inr k ↦ ground (arith, any-find p q xs a (rw k at e) h)
  ]

  pub find-eq-none : (p : A → Bool) (xs : List A) → any p xs ≡ false → find p xs ≡ none
  find-eq-none p [] h = refl
  find-eq-none p (x ∷ xs) h = ground (arith, find-eq-none p xs)
