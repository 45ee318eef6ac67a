-- ===== src/CStr/Copying.antt =====
-- `strcpy` between regions that do not overlap.
use ety_os.Base.{ℕ, zero, suc, ◌+◌, ◌<◌, ◌≡◌, ◌≢◌, List, [], ◌∷◌, some, arith, length, ◌∙◌, ◌⊎◌}
use ety_os.Memory.{Ptr, Mem, store}
use ety_os.CStr.{strcpy_loop, strcpy}
use ety_os.CStr.Shape.{IsStr, IsStr-frame}

-- The memory with the text and its NUL written from `p` on.
unfoldable pub put_str : List ℕ → Ptr → Mem → Mem
put_str [] p m = store m p 0
put_str (c ∷ s) p m = put_str s (p + 1) (store m p c)

pub put_str-outside :
    (s : List ℕ) (p : Ptr) (m : Mem) (x : Ptr)
    → (x < p) ⊎ (p + length s < x)
    → put_str s p m x ≡ m x
unfolding put_str
put_str-outside [] p m x h = ground arith
put_str-outside (c ∷ s) p m x h =
    put_str-outside s (p + 1) (store m p c) x (omega arith) ∙ ground arith

abbrev pub NoNul : List ℕ → Type 0
NoNul [] = Unit {0}
NoNul (c ∷ s) = (c ≢ 0) × NoNul s

pub IsStr-NoNul : (s : List ℕ) (m : Mem) (p : Ptr) → IsStr m p s → NoNul s
IsStr-NoNul [] m p h = tt
IsStr-NoNul (c ∷ s) m p h = (h.1, IsStr-NoNul s m (p + 1) h.2)

pub put_str-IsStr : (s : List ℕ) (p : Ptr) (m : Mem) → NoNul s → IsStr (put_str s p m) p s
unfolding put_str
put_str-IsStr [] p m h = ground arith
put_str-IsStr (c ∷ s) p m (ne, h) = (
  put_str-outside s (p + 1) (store m p c) p (omega arith) ∙ ground arith,
  ne,
  put_str-IsStr s (p + 1) (store m p c) h,
)

-- The `n + 1` bytes at `p` and the `n + 1` bytes at `q` share no address.
abbrev pub ApartStr : Ptr → Ptr → ℕ → Type 0
ApartStr p q n = (p + n < q) ⊎ (q + n < p)

strcpy_loop_lem :
    (s : List ℕ) (fuel : ℕ) (d p : Ptr) (m : Mem)
    → length s < fuel
    → IsStr m p s
    → ApartStr d p (length s)
    → strcpy_loop fuel d p m ≡ some (put_str s d m)
unfolding strcpy_loop put_str
strcpy_loop_lem s zero d p m lt h a = absurd (omega arith)
strcpy_loop_lem [] (suc fuel) d p m lt h a = ground arith
strcpy_loop_lem (c ∷ s) (suc fuel) d p m lt (e, ne, h) a =
    let moved : IsStr (store m d c) (p + 1) s =
      IsStr-frame s m (store m d c) (p + 1) (λ i b. ground arith) h in
    ground (
      arith,
      strcpy_loop_lem s fuel (d + 1) (p + 1) (store m d c) (omega arith) moved (omega arith),
    )

-- `strcpy` to a place that does not overlap the string writes the same text there, closed by a NUL,
-- leaves the source a string of that text, and changes no other byte; it is given a round for
-- each character and one more.
pub strcpy_lem :
    (s : List ℕ) (fuel : ℕ) (dest src : Ptr) (m : Mem)
    → length s < fuel
    → IsStr m src s
    → ApartStr dest src (length s)
    → (m' : Mem) × (strcpy fuel dest src m ≡ some m')
      × IsStr m' dest s
      × IsStr m' src s
      × ((x : Ptr) → (x < dest) ⊎ (dest + length s < x) → m' x ≡ m x)
unfolding strcpy
strcpy_lem s fuel dest src m lt h a = (
  put_str s dest m,
  strcpy_loop_lem s fuel dest src m lt h a,
  put_str-IsStr s dest m (IsStr-NoNul s m src h),
  IsStr-frame s m (put_str s dest m) src (λ i b. put_str-outside s dest m (src + i) (omega arith))
      h,
  put_str-outside s dest m,
)
