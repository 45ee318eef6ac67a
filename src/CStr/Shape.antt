-- ===== src/CStr/Shape.antt =====
-- What a C string stands for, and the fuel that the loops of string.c need: one round for each
-- character and one for the NUL byte.
use ety_os.Base.{ℕ, zero, suc, ◌+◌, ◌<◌, ◌≡◌, ◌≢◌, List, [], ◌∷◌, some, arith, length, ◌∙◌, ap}
use ety_os.Memory.{Ptr, Mem}
use ety_os.CStr.{strlen_loop, strlen}

-- From `p` on stand the characters `s`, none of them NUL, and a NUL byte behind them.
abbrev pub IsStr : Mem → Ptr → List ℕ → Type 0
IsStr m p [] = m p ≡ 0
IsStr m p (c ∷ s) = (m p ≡ c) × (c ≢ 0) × IsStr m (p + 1) s

-- A change of memory that spares the string's bytes leaves the string.
pub IsStr-frame :
    (s : List ℕ) (m m' : Mem) (p : Ptr)
    → ((i : ℕ) → i < suc (length s) → m' (p + i) ≡ m (p + i))
    → IsStr m p s
    → IsStr m' p s
IsStr-frame [] m m' p same h = ap m' (omega arith) ∙ same 0 (omega arith) ∙ ap m (omega arith) ∙ h
IsStr-frame (c ∷ s) m m' p same (e, ne, h) = (
  ap m' (omega arith) ∙ same 0 (omega arith) ∙ ap m (omega arith) ∙ e,
  ne,
  IsStr-frame s m m' (p + 1)
      (λ i lt. ap m' (omega arith) ∙ same (suc i) (omega arith) ∙ ap m (omega arith)) h,
)

strlen_loop_lem :
    (s : List ℕ) (fuel : ℕ) (str : Ptr) (n : ℕ) (m : Mem)
    → length s < fuel
    → IsStr m (str + n) s
    → strlen_loop fuel str n m ≡ some (n + length s)
unfolding strlen_loop
strlen_loop_lem s zero str n m lt h = absurd (omega arith)
strlen_loop_lem [] (suc fuel) str n m lt h = ground arith
strlen_loop_lem (c ∷ s) (suc fuel) str n m lt (e, ne, h) =
    let e' : str + (n + 1) ≡ str + n + 1 = omega arith in
    ground (arith, strlen_loop_lem s fuel str (n + 1) m (omega arith) (rw e' h))

-- `strlen` returns the number of characters of a string, given a round for each and one more.
pub strlen_lem :
    (s : List ℕ) (fuel : ℕ) (str : Ptr) (m : Mem)
    → length s < fuel
    → IsStr m str s
    → strlen fuel str m ≡ some (length s)
unfolding strlen
strlen_lem s fuel str m lt h =
    let e : str + 0 ≡ str = omega arith in
    let e' : 0 + length s ≡ length s = omega arith in
    strlen_loop_lem s fuel str 0 m lt (rw e h) ∙ ap some e'
