-- ===== src/Base/Rows.antt =====
-- Lemmas on the rows that a test, an order or an update picks, and lists cut into batches.
use Prim.Native.Nat.{ℕ, zero, suc, ◌≤◌, ◌<◌}
use mathlib.Core.Path.{◌≡◌, refl, ap}
use mathlib.Core.Logic.{inl, inr}
use mathlib.Core.Bool.{Bool, true, false, not, ◌&&◌}
use mathlib.Core.List.{List, [], ◌∷◌}
use native.Mathlib.Omega.{arith}
use sendself.Base.Tests.{Bool-cases}
use sendself.Base.Lists.{length, take, drop, filter, any, update_where, count}

module _ {ℓ} {A : Type ℓ} where
  pub any-take : (p : A → Bool) (n : ℕ) (xs : List A) → any p (take n xs) ≡ true → any p xs ≡ true
  any-take p zero xs h = cc
  any-take p (suc n) [] h = cc
  any-take p (suc n) (x ∷ xs) h = ground (arith, any-take p n xs)

  pub any-filter : (p q : A → Bool) (xs : List A) → any p (filter q xs) ≡ any (λ a. q a && p a) xs
  any-filter p q [] = refl
  any-filter p q (x ∷ xs) = ground (arith, any-filter p q xs)

  pub any_mono :
      (p q : A → Bool)
      → ((a : A) → p a ≡ true → q a ≡ true)
      → (xs : List A) → any p xs ≡ true
      → any q xs ≡ true
  any_mono p q h [] k = cc
  any_mono p q h (x ∷ xs) k = ground (arith, h x, any_mono p q h xs)

  pub count-filter-le : (p q : A → Bool) (xs : List A) → count p (filter q xs) ≤ count p xs
  count-filter-le p q [] = omega arith
  count-filter-le p q (x ∷ xs) = ground (arith, count-filter-le p q xs)

  -- A row that satisfies `p` and is filtered out makes the count fall.
  pub count-filter-lt :
      (p q : A → Bool) (xs : List A)
      → any (λ a. p a && not (q a)) xs ≡ true
      → count p (filter q xs) < count p xs
  count-filter-lt p q [] h = cc
  count-filter-lt p q (x ∷ xs) h = ground (arith, count-filter-le p q xs, count-filter-lt p q xs)

  -- Two tests that agree on what a third keeps.
  pub count-filter_congr :
      (p p' q : A → Bool)
      → ((a : A) → q a ≡ true → p a ≡ p' a)
      → (xs : List A) → count p (filter q xs) ≡ count p' (filter q xs)
  count-filter_congr p p' q h [] = refl
  count-filter_congr p p' q h (x ∷ xs) = ground (arith, h x, count-filter_congr p p' q h xs)

  pub count-le-length : (p : A → Bool) (xs : List A) → count p xs ≤ length xs
  count-le-length p [] = omega arith
  count-le-length p (x ∷ xs) = ground (arith, count-le-length p xs)

  pub any-eq-true_of_count : (p : A → Bool) (xs : List A) → 0 < count p xs → any p xs ≡ true
  any-eq-true_of_count p [] h = absurd (omega arith)
  any-eq-true_of_count p (x ∷ xs) h = ground (arith, any-eq-true_of_count p xs)

  pub filter_congr :
      (p q : A → Bool) → ((a : A) → p a ≡ q a) → (xs : List A) → filter p xs ≡ filter q xs
  filter_congr p q h [] = refl
  filter_congr p q h (x ∷ xs) = ground (arith, h x, filter_congr p q h xs)

  pub filter-filter_congr :
      (p p' q : A → Bool)
      → ((a : A) → q a ≡ true → p a ≡ p' a)
      → (xs : List A) → filter p (filter q xs) ≡ filter p' (filter q xs)
  filter-filter_congr p p' q h [] = refl
  filter-filter_congr p p' q h (x ∷ xs) = ground (arith, h x, filter-filter_congr p p' q h xs)

  pub count-eq-zero_of_any : (p : A → Bool) (xs : List A) → any p xs ≡ false → count p xs ≡ 0
  count-eq-zero_of_any p [] h = refl
  count-eq-zero_of_any p (x ∷ xs) h = ground (arith, count-eq-zero_of_any p xs)

  pub any_of_take_nil :
      (p : A → Bool) (n : ℕ) (xs : List A) → take (suc n) xs ≡ [] → any p xs ≡ false
  any_of_take_nil p n [] h = refl
  any_of_take_nil p n (x ∷ xs) h = cc

  -- A list is cut into batches of at most `suc n`.
  unfoldable pub batch_loop : ℕ → ℕ → List A → List (List A)
  batch_loop zero n xs = []
  batch_loop (suc fuel) n [] = []
  batch_loop (suc fuel) n (x ∷ xs) = (x ∷ take n xs) ∷ batch_loop fuel n (drop n xs)

  pub update_where_idle :
      (p : A → Bool) (f : A → A) (xs : List A) → any p xs ≡ false → update_where p f xs ≡ xs
  update_where_idle p f [] h = refl
  update_where_idle p f (x ∷ xs) h =
      let here : p x ≡ false = ground arith in
      rw here (ap (λ ys. x ∷ ys) (update_where_idle p f xs (ground arith)))

  -- What an update writes, where it writes.
  pub any-update_where :
      (p q : A → Bool) (f : A → A)
      → ((a : A) → p a ≡ true → q (f a) ≡ true)
      → (xs : List A) → any p xs ≡ true
      → any q (update_where p f xs) ≡ true
  any-update_where p q f h [] k = cc
  any-update_where p q f h (x ∷ xs) k = elim (Bool-cases (p x)) [
    | inl e ↦ rw (e, h x e) refl
    | inr e ↦ ground (arith, any-update_where p q f h xs (rw e at k))
  ]
