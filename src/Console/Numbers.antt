-- ===== src/Console/Numbers.antt =====
-- The text that `print_int` and `print_dec` print.
use ety_os.Base.{
  ℕ, zero, suc, ◌+◌, ◌-◌, ◌/◌, ◌%◌, ◌^◌, ◌≤◌, ◌<◌, ◌≡◌, ◌≢◌, List, [], ◌∷◌, ◌++◌, Option, none,
  some, ltb, ◌==◌, arith, refl, ◌∙◌, sym, ap, length, inl, inr, Bool-cases, ltb→lt, ltb→le, lt→ltb,
  ==→ne, ne→==, eq→==,
}
use native.Mathlib.Nat.{pow-suc}
use native.Mathlib.Numerals.{add-one}
use mathlib.Core.List.{append_assoc, append-nil}
use ety_os.Memory.{Ptr, Mem, store}
use ety_os.CStr.{strtoul}
use ety_os.CStr.Number.{strtoul_lem}
use ety_os.CStr.Shape.{IsStr}
use ety_os.Console.{
  Console, Buffer, print_char, print_str, dec_loop, print_back, print_dec, int_loop, text_at,
  print_int,
}
use ety_os.Console.Digits.{digits, decimal, digits-zero, digits-suc, numeral-decimal}

pub print_str-append :
    (s t : List ℕ) (c : Console) → print_str (s ++ t) c ≡ print_str t (print_str s c)
unfolding print_str
print_str-append [] t c = refl
print_str-append (ch ∷ s) t c = print_str-append s t (print_char ch c)

-- A store behind the text leaves it.
text_at-store :
    (left i j v : ℕ) (b : Buffer) → j < i → text_at left (store b j v) i ≡ text_at left b i
unfolding text_at
text_at-store zero i j v b h = refl
text_at-store (suc left) i j v b h = ground (arith, text_at-store left (i + 1) j v b (omega arith))

text_at-digit :
    (left i d : ℕ) (b : Buffer)
    → text_at (suc left) (store b i (b'0' + d)) i ≡ (b'0' + d) ∷ text_at left b (i + 1)
unfolding text_at
text_at-digit left i d b =
    rw (eq→== i i refl, ne→== (b'0' + d) 0 (omega arith))
      (ap (λ t. (b'0' + d) ∷ t) (text_at-store left (i + 1) i (b'0' + d) b (omega arith)))

here : (i : ℕ) → suc i ≤ 10 → 11 - i ≡ suc (11 - suc i)
here i h = omega arith

int_loop_lem :
    (i num : ℕ) (b : Buffer)
    → i ≤ 10
    → num < 10 ^ i
    → text_at (11 - (int_loop i num b).0) (int_loop i num b).1 (int_loop i num b).0
      ≡ digits i num ++ text_at (11 - i) b i
unfolding int_loop
int_loop_lem zero num b le h = let z : num ≡ 0 = omega arith in rw (z, digits-zero)
int_loop_lem (suc i) num b le h = elim (Bool-cases (ltb 0 num)) [
  | inl e ↦ rw e (
      int_loop_lem i (num / 10) (store b i (b'0' + num % 10)) (omega arith)
        (omega (arith, pow-suc 10 i))
      ∙ ap (λ k. digits i (num / 10) ++ text_at k (store b i (b'0' + num % 10)) i) (here i le)
      ∙ ap (λ t. digits i (num / 10) ++ t) (text_at-digit (11 - suc i) i (num % 10) b)
      ∙ ap (λ k. digits i (num / 10) ++ ((b'0' + num % 10) ∷ text_at (11 - suc i) b k)) (add-one i)
      ∙ rw (digits-suc i num (ltb→lt _ _ e), append_assoc))
  | inr e ↦ let z : num ≡ 0 = omega (arith, ltb→le _ _ e) in rw (e, z, digits-zero)
]

print_back-store :
    (i j v : ℕ) (b : Buffer) (c : Console) → i ≤ j → print_back i (store b j v) c ≡ print_back i b c
unfolding print_back
print_back-store zero j v b c h = refl
print_back-store (suc i) j v b c h =
    print_back-store i j v b _ (omega arith)
    ∙ ap (λ ch. print_back i b (print_char ch c)) (ground arith)

dec_loop-stop : (fuel num i : ℕ) (b : Buffer) → num ≡ 0 → dec_loop (suc fuel) num i b ≡ some (b, i)
unfolding dec_loop
dec_loop-stop fuel num i b z = rw z

dec_loop-next :
    (fuel num i : ℕ) (b : Buffer)
    → 0 < num
    → dec_loop (suc fuel) num i b ≡ dec_loop fuel (num / 10) (i + 1) (store b i (b'0' + num % 10))
unfolding dec_loop
dec_loop-next fuel num i b h = rw (lt→ltb 0 num h)

-- The buffer and the count of digits with which the first loop of `print_dec` stops: printed from
-- the last digit to the first, they are the decimal digits before what stood there.
record Stored (fuel num i : ℕ) (b : Buffer) (r : Option (Buffer × ℕ)) : Type 0 where
  buffer : Buffer
  count : ℕ
  returns : r ≡ some (buffer, count)
  prints :
      (c : Console) → print_back count buffer c ≡ print_back i b (print_str (digits fuel num) c)

Stored-zero :
    (fuel num i : ℕ) (b : Buffer) → num ≡ 0 → Stored fuel num i b (dec_loop (suc fuel) num i b)
Stored-zero fuel num i b z = record {
  buffer = b;
  count = i;
  returns = dec_loop-stop fuel num i b z;
  prints = λ c. rw (z, digits-zero fuel) (unfold print_str in refl);
}

print_back-suc :
    (i v : ℕ) (b : Buffer) (c : Console)
    → print_back (i + 1) (store b i v) c ≡ print_back i b (print_char v c)
print_back-suc i v b c =
    ap (λ k. print_back k (store b i v) c) (add-one i)
    ∙ (unfold print_back in
        rw (eq→== i i refl) (print_back-store i i v b (print_char v c) (omega arith)))

dec_loop-Stored :
    (fuel num i : ℕ) (b : Buffer)
    → num < 10 ^ fuel
    → Stored fuel num i b (dec_loop (suc fuel) num i b)
dec_loop-Stored zero num i b h = Stored-zero 0 num i b (omega arith)
dec_loop-Stored (suc fuel) num i b h = elim (Bool-cases (ltb 0 num)) [
  | inl e ↦
      let lt : 0 < num = ltb→lt _ _ e in
      let rest =
        dec_loop-Stored fuel (num / 10) (i + 1) (store b i (b'0' + num % 10))
          (omega (arith, pow-suc 10 fuel)) in
      record {
        buffer = rest.buffer;
        count = rest.count;
        returns = dec_loop-next (suc fuel) num i b lt ∙ rest.returns;
        prints = λ c.
            rest.prints c
            ∙ print_back-suc i (b'0' + num % 10) b (print_str (digits fuel (num / 10)) c)
            ∙ ap (print_back i b) (sym (last fuel num c lt));
      }
  | inr e ↦ Stored-zero (suc fuel) num i b (omega (arith, ltb→le _ _ e))
]
  where
    last :
        (fuel num : ℕ) (c : Console)
        → 0 < num
        → print_str (digits (suc fuel) num) c
          ≡ print_char (b'0' + num % 10) (print_str (digits fuel (num / 10)) c)
    last fuel num c lt = rw (digits-suc fuel num lt, print_str-append) (unfold print_str in refl)

-- For a number below 2 ^ 32, `print_int` and, given 11 rounds, `print_dec` print one text, the
-- decimal text of the number.
pub print_int-print_dec :
    (n : ℕ) (c : Console)
    → n < 2 ^ 32
    → (print_int n c ≡ print_str (decimal n) c)
      × (print_dec 11 n c ≡ some (print_str (decimal n) c))
unfolding print_int print_dec decimal print_back text_at
print_int-print_dec n c h = elim (Bool-cases (n == 0)) [
  | inl e ↦ rw e (refl, unfold print_str in refl)
  | inr e ↦ rw e (
    ap (λ t. print_str t c)
        (int_loop_lem 10 n (λ i. 0) (omega arith) (omega arith) ∙ append-nil (digits 10 n)),
    printed (==→ne _ _ e) (dec_loop-Stored 10 n 0 (λ i. 0) (omega arith)),
  )
]
  where
    printed :
        n ≢ 0
        → Stored 10 n 0 (λ i. 0) (dec_loop 11 n 0 (λ i. 0))
        → elim (dec_loop 11 n 0 (λ i. 0)) [
          | none ↦ none
          | some (buffer, i) ↦ some (print_back i buffer c)
        ]
          ≡ some (print_str (digits 10 n) c)
    printed ne s = rw s.returns (ap some (s.prints c))

-- What `print_int` prints for a number below 2 ^ 32 is a text that `strtoul` in base 10 reads back
-- as that number, with `endptr` at the end of the text.
pub strtoul-print_int :
    (n : ℕ)
    → n < 2 ^ 32
    → (s : List ℕ) × ((c : Console) → print_int n c ≡ print_str s c)
      × ((fuel : ℕ) (p : Ptr) (m : Mem)
          → length s < fuel
          → IsStr m p s
          → strtoul fuel p 10 m ≡ some (n, p + length s))
strtoul-print_int n h = (
  decimal n,
  λ c. (print_int-print_dec n c h).0,
  λ fuel p m lt is.
      strtoul_lem (decimal n) fuel 10 p m lt is
      ∙ rw (numeral-decimal n h) (ap (λ k. some (k, p + length (decimal n))) (omega arith)),
)
