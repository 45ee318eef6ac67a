-- ===== src/Console/Digits.antt =====
-- The decimal digits of a number, as a specification of `print_int` and `print_dec`.
use ety_os.Base.{
  ℕ, zero, suc, ◌+◌, ◌*◌, ◌/◌, ◌%◌, ◌^◌, ◌<◌, ◌≡◌, List, [], ◌∷◌, ◌++◌, some, ltb, ◌==◌, arith,
  refl, ◌∙◌, sym, ==→eq, ap, if◌then◌else◌, length, length-append, inl, inr, Bool-cases, ltb→lt,
  ltb→le, lt→ltb,
}
use native.Mathlib.Nat.{pow-suc}
use mathlib.Core.List.{append_assoc, append-nil}
use ety_os.CStr.{digit_of}
use ety_os.CStr.Number.{digit_in, digit_in-digit_of, worth, place_in, numeral, numeral-digit}

-- At most `fuel` digits, the most significant first, none for 0.
unfoldable pub digits : ℕ → ℕ → List ℕ
digits zero n = []
digits (suc fuel) n = if ltb 0 n then digits fuel (n / 10) ++ ((b'0' + n % 10) ∷ []) else []

unfoldable pub decimal : ℕ → List ℕ
decimal n = if n == 0 then b'0' ∷ [] else digits 10 n

pub digits-zero : (fuel : ℕ) → digits fuel 0 ≡ []
unfolding digits
digits-zero zero = refl
digits-zero (suc fuel) = refl

pub digits-suc :
    (fuel n : ℕ) → 0 < n → digits (suc fuel) n ≡ digits fuel (n / 10) ++ ((b'0' + n % 10) ∷ [])
unfolding digits
digits-suc fuel n h = rw (lt→ltb 0 n h)

-- More fuel than the number has digits changes nothing.
pub digits_fuel : (f g n : ℕ) → n < 10 ^ f → n < 10 ^ g → digits f n ≡ digits g n
digits_fuel zero g n h k =
    ap (digits zero) e ∙ digits-zero zero ∙ sym (ap (digits g) e ∙ digits-zero g)
  where
    e : n ≡ 0
    e = omega arith
digits_fuel (suc f) zero n h k =
    ap (digits (suc f)) e ∙ digits-zero (suc f) ∙ sym (ap (digits zero) e ∙ digits-zero zero)
  where
    e : n ≡ 0
    e = omega arith
digits_fuel (suc f) (suc g) n h k = elim (Bool-cases (ltb 0 n)) [
  | inl e ↦ rw (
    digits-suc f n (ltb→lt _ _ e),
    digits-suc g n (ltb→lt _ _ e),
    digits_fuel f g (n / 10) (omega (arith, pow-suc 10 f)) (omega (arith, pow-suc 10 g)),
  )
  | inr e ↦
      let z : n ≡ 0 = omega (arith, ltb→le _ _ e) in
      rw (z, digits-zero (suc f), digits-zero (suc g))
]

digit_in_ten : (d : ℕ) → d < 10 → digit_in 10 (b'0' + d) ≡ some d
unfolding digit_of
digit_in_ten d h = digit_in-digit_of 10 (b'0' + d) ∙ ground arith

-- Read back as a numeral, the digits give the number.
numeral-digits :
    (fuel n : ℕ) (t : List ℕ)
    → n < 10 ^ fuel
    → numeral 10 0 (digits fuel n ++ t)
      ≡ ((numeral 10 n t).0, length (digits fuel n) + (numeral 10 n t).1)
numeral-digits zero n t h =
    let z : n ≡ 0 = omega arith in
    rw (z, digits-zero zero) (ap (λ k. ((numeral 10 0 t).0, k)) (omega arith))
numeral-digits (suc fuel) n t h = elim (Bool-cases (ltb 0 n)) [
  | inl e ↦
      let d : n % 10 < 10 = omega arith in
      let whole : n / 10 * 10 + n % 10 ≡ n = omega arith in
      rw (digits-suc fuel n (ltb→lt _ _ e), append_assoc)
        (numeral-digits fuel (n / 10) ((b'0' + n % 10) ∷ t) (omega (arith, pow-suc 10 fuel))
          ∙ rw
              (
                numeral-digit 10 (n / 10) (b'0' + n % 10) (n % 10) t (digit_in_ten (n % 10) d),
                whole,
              )
              (ap (λ k. ((numeral 10 n t).0, k))
                (omega (arith, length-append (digits fuel (n / 10)) ((b'0' + n % 10) ∷ [])))))
  | inr e ↦
      let z : n ≡ 0 = omega (arith, ltb→le _ _ e) in
      rw (z, digits-zero (suc fuel)) (ap (λ k. ((numeral 10 0 t).0, k)) (omega arith))
]

numeral-nil : (acc : ℕ) → numeral 10 acc [] ≡ (acc, 0)
unfolding numeral
numeral-nil acc = refl

numeral-digits_nil :
    (fuel n : ℕ) → n < 10 ^ fuel → numeral 10 0 (digits fuel n) ≡ (n, length (digits fuel n))
numeral-digits_nil fuel n h =
    ap (numeral 10 0) (sym (append-nil (digits fuel n)))
    ∙ numeral-digits fuel n [] h
    ∙ rw numeral-nil (ap (λ k. (n, k)) (omega arith))

-- The decimal text of a number is a numeral of base 10 for just that number.
pub numeral-decimal : (n : ℕ) → n < 2 ^ 32 → numeral 10 0 (decimal n) ≡ (n, length (decimal n))
unfolding decimal
numeral-decimal n h = elim (Bool-cases (n == 0)) [
  | inl e ↦
      let z : n ≡ 0 = ==→eq _ _ e in rw (e, z) (unfold numeral digit_in worth place_in in refl)
  | inr e ↦ rw e (numeral-digits_nil 10 n (omega arith))
]
