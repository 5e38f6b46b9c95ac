-- ===== src/Base/Keyed.antt =====
-- Tables with a key: a row is looked up by it, and each key stands once.
use Prim.Native.Nat.{ℕ, zero, suc}
use mathlib.Core.Path.{◌≡◌, refl, sym, ap, subst, ◌∙◌}
use mathlib.Core.Logic.{inl, inr}
use mathlib.Core.Bool.{Bool, true, false}
use mathlib.Core.Option.{Option, none, some}
use mathlib.Core.List.{List, [], ◌∷◌, ◌++◌}
use native.Mathlib.Omega.{arith}
use sendself.Base.Tests.{if◌then◌else◌, Bool-cases}
use sendself.Base.Lists.{take, filter, any, find, update_where, insert_sorted, order_by}
use sendself.Base.Strings.{Text, str_eq, str_eq_refl, str_eq_iff, str_eq_comm}

-- A row that satisfies the test, or nothing.
abbrev pub only {ℓ} : {A : Type ℓ} → (A → Bool) → Option A → Option A
only p none = none
only p (some a) = if p a then some a else none

abbrev pub contains : Text → List Text → Bool
contains x = any (str_eq x)

module _ {ℓ} {A : Type ℓ} (key : A → Text) where
  abbrev pub lookup_by : Text → List A → Option A
  lookup_by x = find λ a. str_eq (key a) x

  -- No two rows have the same key.
  abbrev pub IsKeyedBy : List A → Type ℓ
  IsKeyedBy [] = Unit
  IsKeyedBy (a ∷ as') = (lookup_by (key a) as' ≡ none) × IsKeyedBy as'

  -- A key that another row has is not this one's.
  lookup_other :
      (a : A) (x : Text) (as' : List A)
      → lookup_by (key a) as' ≡ none
      → str_eq (key a) x ≡ true
      → lookup_by x as' ≡ none
  lookup_other a x as' h e = subst (λ y. lookup_by y as' ≡ none) ((str_eq_iff (key a) x).0 e) h

  pub lookup_by-filter :
      (p : A → Bool) (x : Text) (as' : List A)
      → IsKeyedBy as'
      → lookup_by x (filter p as') ≡ only p (lookup_by x as')
  lookup_by-filter p x [] k = refl
  lookup_by-filter p x (a ∷ as') k =
      ground (arith, lookup_by-filter p x as' k.1, lookup_other a x as' k.0)

  pub IsKeyedBy-filter : (p : A → Bool) (as' : List A) → IsKeyedBy as' → IsKeyedBy (filter p as')
  IsKeyedBy-filter p [] k = tt
  IsKeyedBy-filter p (a ∷ as') k = elim (Bool-cases (p a)) [
    | inl q ↦
        rw q (lookup_by-filter p (key a) as' k.1 ∙ ap (only p) k.0, IsKeyedBy-filter p as' k.1)
    | inr q ↦ rw q (IsKeyedBy-filter p as' k.1)
  ]

  lookup_by-take :
      (n : ℕ) (x : Text) (as' : List A) → lookup_by x as' ≡ none → lookup_by x (take n as') ≡ none
  lookup_by-take zero x as' h = refl
  lookup_by-take (suc n) x [] h = refl
  lookup_by-take (suc n) x (a ∷ as') h = ground (arith, lookup_by-take n x as')

  pub IsKeyedBy-take : (n : ℕ) (as' : List A) → IsKeyedBy as' → IsKeyedBy (take n as')
  IsKeyedBy-take zero as' k = tt
  IsKeyedBy-take (suc n) [] k = tt
  IsKeyedBy-take (suc n) (a ∷ as') k = (lookup_by-take n (key a) as' k.0, IsKeyedBy-take n as' k.1)

  -- What keeps the keys keeps a key that is missing missing.
  lookup_by-update_where :
      (p : A → Bool) (f : A → A)
      → ((a : A) → key (f a) ≡ key a)
      → (x : Text) (as' : List A) → lookup_by x as' ≡ none
      → lookup_by x (update_where p f as') ≡ none
  lookup_by-update_where p f same x [] h = refl
  lookup_by-update_where p f same x (a ∷ as') h =
      ground (arith, ap (λ k. str_eq k x) (same a), lookup_by-update_where p f same x as')

  pub IsKeyedBy-update_where :
      (p : A → Bool) (f : A → A)
      → ((a : A) → key (f a) ≡ key a)
      → (as' : List A) → IsKeyedBy as'
      → IsKeyedBy (update_where p f as')
  IsKeyedBy-update_where p f same [] k = tt
  IsKeyedBy-update_where p f same (a ∷ as') k =
      let rest = IsKeyedBy-update_where p f same as' k.1 in
      let apart = lookup_by-update_where p f same in
      elim (Bool-cases (p a)) [
        | inl q ↦
            rw q
              (apart (key (f a)) as' (subst (λ y. lookup_by y as' ≡ none) (sym (same a)) k.0), rest)
        | inr q ↦ rw q (apart (key a) as' k.0, rest)
      ]

  pub lookup_by-append :
      (x : Text) (as' : List A) (b : A)
      → lookup_by x (as' ++ b ∷ []) ≡ elim (lookup_by x as') as (λ _. Option A) [
        | none ↦ if str_eq (key b) x then some b else none
        | some a ↦ some a
      ]
  lookup_by-append x [] b = refl
  lookup_by-append x (a ∷ as') b = ground (arith, lookup_by-append x as' b)

  pub IsKeyedBy-append :
      (as' : List A) (b : A)
      → IsKeyedBy as'
      → lookup_by (key b) as' ≡ none
      → IsKeyedBy (as' ++ b ∷ [])
  IsKeyedBy-append [] b k h = (refl, tt)
  IsKeyedBy-append (a ∷ as') b k h = (
    ground (arith, lookup_by-append (key a) as' b, k.0, h, str_eq_comm (key a) (key b)),
    IsKeyedBy-append as' b k.1 (ground (arith, h, str_eq_comm (key a) (key b))),
  )

  module _ (before : A → A → Bool) where
    lookup_by-insert_sorted :
        (a : A) (x : Text) (as' : List A)
        → lookup_by (key a) as' ≡ none
        → lookup_by x (insert_sorted before a as')
          ≡ (if str_eq (key a) x then some a else lookup_by x as')
    unfolding insert_sorted
    lookup_by-insert_sorted a x [] h = refl
    lookup_by-insert_sorted a x (b ∷ bs) h =
        ground
          (arith, lookup_by-insert_sorted a x bs, clash, str_eq_refl (key b), str_eq_refl (key a))
      where
        clash : str_eq (key b) x ≡ true → str_eq (key a) x ≡ true → str_eq (key b) (key a) ≡ true
        clash e s =
            (str_eq_iff (key b) (key a)).1
              ((str_eq_iff (key b) x).0 e ∙ sym ((str_eq_iff (key a) x).0 s))

    IsKeyedBy-insert_sorted :
        (a : A) (as' : List A)
        → lookup_by (key a) as' ≡ none
        → IsKeyedBy as'
        → IsKeyedBy (insert_sorted before a as')
    unfolding insert_sorted
    IsKeyedBy-insert_sorted a [] h k = (refl, tt)
    IsKeyedBy-insert_sorted a (b ∷ bs) h k = elim (Bool-cases (before b a)) [
      | inr q ↦ rw q (h, k)
      | inl q ↦ rw q (
        lookup_by-insert_sorted a (key b) bs (tail_none h) ∙ apart,
        IsKeyedBy-insert_sorted a bs (tail_none h) k.1,
      )
    ]
      where
        tail_none : lookup_by (key a) (b ∷ bs) ≡ none → lookup_by (key a) bs ≡ none
        tail_none u = ground arith

        differ : str_eq (key a) (key b) ≡ false
        differ = ground (arith, str_eq_comm (key a) (key b))

        apart : (if str_eq (key a) (key b) then some a else lookup_by (key b) bs) ≡ none
        apart = rw differ k.0

    pub lookup_by-order_by :
        (x : Text) (as' : List A)
        → IsKeyedBy as'
        → lookup_by x (order_by before as') ≡ lookup_by x as'
    unfolding order_by
    lookup_by-order_by x [] k = refl
    lookup_by-order_by x (a ∷ as') k =
        lookup_by-insert_sorted a x (order_by before as') (lookup_by-order_by (key a) as' k.1 ∙ k.0)
        ∙ ap (λ (o : Option A). if str_eq (key a) x then some a else o)
            (lookup_by-order_by x as' k.1)

    pub IsKeyedBy-order_by : (as' : List A) → IsKeyedBy as' → IsKeyedBy (order_by before as')
    unfolding order_by
    IsKeyedBy-order_by [] k = tt
    IsKeyedBy-order_by (a ∷ as') k =
        IsKeyedBy-insert_sorted a (order_by before as') (lookup_by-order_by (key a) as' k.1 ∙ k.0)
          (IsKeyedBy-order_by as' k.1)
