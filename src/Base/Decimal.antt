-- ===== src/Base/Decimal.antt =====
-- Python's `str` of a number and `f"{n:05d}"`, and reading the digits at the front of a text.
use Prim.Native.Char.{Char, code}
use Prim.Native.Nat.{ℕ, zero, suc, ◌+◌, ◌-◌, ◌*◌, ◌/◌, ◌%◌, ◌≤◌, ◌<◌}
use Prim.Native.String
use Prim.Native.String.{String, ◌++◌}
use mathlib.Core.Path.{◌≡◌, refl, ap, ◌∙◌}
use mathlib.Core.Logic.{inl, inr}
use mathlib.Core.Bool.{Bool, ◌&&◌}
use native.Mathlib.Omega.{arith}
use text.Mathlib.TextLemmas.{append_assoc, cons-append, nil-append, length-append, length-cons}
use graph_extraction.Base.Tests.{ltb, leb, ◌==◌, if◌then◌else◌, Bool-cases}

digit_char : ℕ → Char
digit_char d =
    if d == 0
    then "0"
    else if d == 1
    then "1"
    else if d == 2
    then "2"
    else if d == 3
    then "3"
    else if d == 4
    then "4"
    else if d == 5
    then "5"
    else if d == 6
    then "6"
    else if d == 7
    then "7"
    else if d == 8
    then "8"
    else "9"

digit : ℕ → String
unfolding digit_char
digit d = String.◌∷◌ (digit_char d) String.[]

digit-append : (d : ℕ) (s : String) → digit d ++ s ≡ String.◌∷◌ (digit_char d) s
unfolding digit
digit-append d s =
    cons-append (digit_char d) String.[] s ∙ ap (String.◌∷◌ (digit_char d)) (nil-append s)

show_digits : ℕ → ℕ → String
unfolding digit
show_digits zero n = ""
show_digits (suc fuel) n =
    let more = show_digits fuel (n / 10) ++ digit (n % 10) in if ltb n 10 then digit n else more

-- `str(n)`
unfoldable pub show : ℕ → String
unfolding show_digits
show n = show_digits (suc n) n

zeros : ℕ → String
zeros zero = ""
zeros (suc k) = digit 0 ++ zeros k

-- `f"{n:0{width}d}"`
unfoldable pub show_padded : ℕ → ℕ → String
unfolding show zeros
show_padded width n = zeros (width - String.count (show n)) ++ show n

is_digit : ℕ → Bool
is_digit c = leb 48 c && leb c 57

-- The number at the front of a text, read on from `acc`, and the rest.
unfoldable pub read_number : ℕ → String → ℕ × String
unfolding is_digit
read_number acc String.[] = (acc, "")
read_number acc (String.◌∷◌ c s) =
    let rest = read_number (acc * 10 + (code c - 48)) s in
    if is_digit (code c) then rest else (acc, String.◌∷◌ c s)

read_number-digit :
    (d acc : ℕ) (s : String)
    → d < 10
    → read_number acc (digit d ++ s) ≡ read_number (acc * 10 + d) s
unfolding read_number digit_char
read_number-digit zero acc s h = rw digit-append refl
read_number-digit (suc zero) acc s h = rw digit-append refl
read_number-digit (suc (suc zero)) acc s h = rw digit-append refl
read_number-digit (suc (suc (suc zero))) acc s h = rw digit-append refl
read_number-digit (suc (suc (suc (suc zero)))) acc s h = rw digit-append refl
read_number-digit (suc (suc (suc (suc (suc zero))))) acc s h = rw digit-append refl
read_number-digit (suc (suc (suc (suc (suc (suc zero)))))) acc s h = rw digit-append refl
read_number-digit (suc (suc (suc (suc (suc (suc (suc zero))))))) acc s h = rw digit-append refl
read_number-digit (suc (suc (suc (suc (suc (suc (suc (suc zero)))))))) acc s h =
    rw digit-append refl
read_number-digit (suc (suc (suc (suc (suc (suc (suc (suc (suc zero))))))))) acc s h =
    rw digit-append refl
read_number-digit (suc (suc (suc (suc (suc (suc (suc (suc (suc (suc n)))))))))) acc s h =
    absurd (omega arith)

read_number-show_digits :
    (fuel n : ℕ) (s : String) → n < fuel → read_number 0 (show_digits fuel n ++ s) ≡ read_number n s
unfolding show_digits
read_number-show_digits zero n s h = absurd (omega arith)
read_number-show_digits (suc fuel) n s h = elim (Bool-cases (ltb n 10)) [
  | inl t ↦ rw t (read_number-digit n 0 s (ground arith) ∙ ap (λ a. read_number a s) (omega arith))
  | inr t ↦
      let big : 10 ≤ n = ground arith in
      rw t (
        ap (read_number 0) (append_assoc (show_digits fuel (n / 10)) (digit (n % 10)) s)
        ∙ read_number-show_digits fuel (n / 10) (digit (n % 10) ++ s) (omega arith)
        ∙ read_number-digit (n % 10) (n / 10) s (omega arith)
        ∙ ap (λ a. read_number a s) (omega arith))
]

-- A printed number is read back, up to what follows it.
pub read_number-show : (n : ℕ) (s : String) → read_number 0 (show n ++ s) ≡ read_number n s
unfolding show
read_number-show n s = read_number-show_digits (suc n) n s (omega arith)

read_number-zeros : (k : ℕ) (s : String) → read_number 0 (zeros k ++ s) ≡ read_number 0 s
unfolding zeros read_number
read_number-zeros zero s = ap (read_number 0) (nil-append s)
read_number-zeros (suc k) s =
    ap (read_number 0) (append_assoc (digit 0) (zeros k) s)
    ∙ read_number-digit 0 0 (zeros k ++ s) (omega arith)
    ∙ read_number-zeros k s

pub read_number-show_padded :
    (width n : ℕ) (s : String) → read_number 0 (show_padded width n ++ s) ≡ read_number n s
unfolding show_padded
read_number-show_padded width n s =
    ap (read_number 0) (append_assoc (zeros (width - String.count (show n))) (show n) s)
    ∙ read_number-zeros (width - String.count (show n)) (show n ++ s)
    ∙ read_number-show n s

count-digit : (d : ℕ) → String.count (digit d) ≡ 1
unfolding digit
count-digit d = length-cons (digit_char d) ""

count-show_digits : (fuel n : ℕ) → 0 < String.count (show_digits (suc fuel) n)
unfolding show_digits
count-show_digits fuel n = elim (Bool-cases (ltb n 10)) [
  | inl t ↦ rw t (omega (arith, count-digit n))
  | inr t ↦
      rw (t, length-append (show_digits fuel (n / 10)) (digit (n % 10)))
        (omega (arith, count-digit (n % 10)))
]

-- A printed number has a digit.
pub count-show_padded : (width n : ℕ) → 0 < String.count (show_padded width n)
unfolding show_padded show
count-show_padded width n =
    omega
      (arith, length-append (zeros (width - String.count (show n))) (show n), count-show_digits n n)
