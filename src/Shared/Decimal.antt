-- ===== src/Shared/Decimal.antt =====
-- `String(n)` of a natural number, which the statements of packages/shared/src/index.ts use.
use sendself.Base.{
  ℕ, zero, suc, ◌+◌, ◌*◌, ◌-◌, ◌/◌, ◌%◌, ◌≤◌, ◌<◌, ◌≡◌, refl, sym, ap, ◌∙◌, inl, inr, Bool, false,
  ◌||◌, [], ◌∷◌, ◌++◌, arith, Text, any, any-append, ltb, if◌then◌else◌, Bool-cases,
}

-- The digits of `n`, on fuel.
digits : ℕ → ℕ → Text
digits zero n = []
digits (suc fuel) n =
    let front = digits fuel (n / 10) in
    if ltb n 10 then (48 + n) ∷ [] else front ++ (48 + n % 10) ∷ []

-- `suc n` steps are more than a number has digits.
pub decimal : ℕ → Text
unfolding digits
decimal n = digits (suc n) n

-- The number that digits spell.
value : ℕ → Text → ℕ
value n [] = n
value n (c ∷ cs) = value (n * 10 + (c - 48)) cs

value-append : (n : ℕ) (cs : Text) (c : ℕ) → value n (cs ++ c ∷ []) ≡ value n cs * 10 + (c - 48)
unfolding value
value-append n [] c = refl
value-append n (d ∷ cs) c = value-append (n * 10 + (d - 48)) cs c

value-digits : (fuel n : ℕ) → n < fuel → value 0 (digits fuel n) ≡ n
unfolding digits value
value-digits zero n h = absurd (omega arith)
value-digits (suc fuel) n h = elim (Bool-cases (ltb n 10)) [
  | inl e ↦ rw e (omega arith)
  | inr e ↦
      let big : 10 ≤ n = ground arith in
      rw
        (
          e,
          value-append 0 (digits fuel (n / 10)) (48 + n % 10),
          value-digits fuel (n / 10) (omega arith),
        )
        (omega arith)
]

-- Two numbers with the same text are the same.
pub decimal_inj : (m n : ℕ) → decimal m ≡ decimal n → m ≡ n
unfolding decimal
decimal_inj m n e =
    sym (value-digits (suc m) m (omega arith))
    ∙ ap (value 0) e
    ∙ value-digits (suc n) n (omega arith)

abbrev is_no_digit : ℕ → Bool
is_no_digit c = ltb c 48 || ltb 57 c

digits-plain : (fuel n : ℕ) → any is_no_digit (digits fuel n) ≡ false
unfolding digits
digits-plain zero n = refl
digits-plain (suc fuel) n = elim (Bool-cases (ltb n 10)) [
  | inl e ↦ rw e (ground arith)
  | inr e ↦
      rw
        (
          e,
          any-append is_no_digit (digits fuel (n / 10)) ((48 + n % 10) ∷ []),
          digits-plain fuel (n / 10),
        )
        (ground arith)
]

-- A number's text has nothing but digits.
pub decimal-plain : (n : ℕ) → any is_no_digit (decimal n) ≡ false
unfolding decimal
decimal-plain n = digits-plain (suc n) n
