-- ===== src/Libc/Decimal.antt =====
-- `cat_num_to_msg` and `int_to_char` of the servers, and the library's `atoi`.
pub mod Print
use np.Prelude.{
  ℕ, zero, suc, ◌+◌, ◌-◌, ◌*◌, ◌/◌, ◌%◌, ◌^◌, ◌≤◌, ◌<◌, ◌≡◌, refl, Bool, true, false, ◌&&◌, ◌||◌,
  List, [], ◌∷◌, ◌++◌, Option, none, some, arith, ltb, leb, ◌==◌, if◌then◌else◌, ℤ, pos, negsuc,
  neg, Result, ok, fault, or_fault, ◌>>=◌, buffer_overflow, int_overflow, out_of_bounds,
}
use np.Libc.{Bytes, codes, strcat}

-- A `switch` with no default: no value for anything but a digit.
unfoldable pub int_to_char : ℕ → Option ℕ
int_to_char num =
    if num == 0
    then some b'0'
    else if num == 1
    then some b'1'
    else if num == 2
    then some b'2'
    else if num == 3
    then some b'3'
    else if num == 4
    then some b'4'
    else if num == 5
    then some b'5'
    else if num == 6
    then some b'6'
    else if num == 7
    then some b'7'
    else if num == 8
    then some b'8'
    else if num == 9
    then some b'9'
    else none

-- `while (tmp) { len++; tmp /= 10; }` on fuel.
unfoldable pub count_digits : ℕ → ℕ → ℕ → ℕ
count_digits zero tmp len = len
count_digits (suc fuel) tmp len =
    let rest = count_digits fuel (tmp / 10) (len + 1) in if tmp == 0 then len else rest

-- `for (i = len-1; i >= 0; i--) { num_str[i] = int_to_char(num%10); num /= 10; }`: the array is
-- filled from its end, so the bytes written so far are a list that grows at its front.
unfoldable pub fill : ℕ → ℕ → Bytes → Option Bytes
fill zero num done = some done
fill (suc i) num done = elim (int_to_char (num % 10)) [
  | none ↦ none
  | some c ↦ fill i (num / 10) (c ∷ done)
]

-- Ten rounds are enough for an `unsigned int`; there is one to spare.
unfoldable pub num_str : ℕ → Option Bytes
num_str num = fill (if num == 0 then 1 else count_digits 11 num 0) num []

-- `cat_num_to_msg` on an array of `cap` bytes.
unfoldable pub cat_num_to_msg : ℕ → Bytes → ℕ → Result Bytes
cat_num_to_msg cap msg num = do s ← or_fault (num_str num) out_of_bounds; strcat cap msg s

abbrev pub is_digit : ℕ → Bool
is_digit c = leb b'0' c && leb c b'9'

abbrev is_space : ℕ → Bool
is_space c = c == 32 || (leb 9 c && leb c 13)

-- The number that the digits at the front of a text spell behind `n`.
unfoldable pub digits_value : ℕ → Bytes → ℕ
digits_value n [] = n
digits_value n (c ∷ s) =
    let rest = digits_value (n * 10 + (c - b'0')) s in if is_digit c then rest else n

abbrev pub int_max : ℕ
int_max = 2 ^ 31 - 1

unfoldable pub skip_space : Bytes → Bytes
skip_space [] = []
skip_space (c ∷ s) = let rest = skip_space s in if is_space c then rest else c ∷ s

signed : Bytes → ℤ
signed [] = pos 0
signed (c ∷ s) =
    if c == b'-'
    then neg (pos (digits_value 0 s))
    else if c == b'+'
    then pos (digits_value 0 s)
    else pos (digits_value 0 (c ∷ s))

in_int : ℤ → Bool
in_int (pos n) = leb n int_max
in_int (negsuc n) = leb n int_max

-- `atoi`; a number that is no `int` is undefined behaviour.
unfoldable pub atoi : Bytes → Result ℤ
unfolding skip_space signed in_int digits_value
atoi s = let v = signed (skip_space s) in if in_int v then ok v else fault int_overflow

prints : num_str 4294967295 ≡ some (codes "4294967295")
unfolding num_str count_digits fill int_to_char
prints = refl

reads : (atoi (codes "-12x") ≡ ok (negsuc 11)) × (atoi (codes "x") ≡ ok (pos 0))
unfolding atoi
reads = (refl, refl)
