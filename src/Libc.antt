-- ===== src/Libc.antt =====
-- The part of the C library that the servers call on text. A C string is the list of its bytes
-- before the terminating NUL.
pub mod Buffers
pub mod Equality
pub mod Tokens
pub mod Decimal
mod Tests
use Prim.Native.Char.{code}
use Prim.Native.String.{String}
use np.Prelude.{
  ℕ, suc, zero, ◌+◌, ◌-◌, ◌*◌, ◌%◌, ◌/◌, ◌^◌, ◌≡◌, refl, Bool, true, false, ◌&&◌, ◌||◌, List, [],
  ◌∷◌, ◌++◌, Option, none, some, ltb, leb, ◌==◌, if◌then◌else◌, length, ℤ, pos, negsuc, neg, Result,
  ok, fault, Fault, buffer_overflow, int_overflow, ◌>>=◌,
}

abbrev pub Bytes : Type 0
Bytes = List ℕ

-- The bytes of an ASCII literal.
abbrev pub codes : String → Bytes
codes String.[] = []
codes (String.◌∷◌ c s) = code c ∷ codes s

-- `!strcmp(s, t)`
unfoldable pub str_eq : Bytes → Bytes → Bool
str_eq [] [] = true
str_eq [] (d ∷ t) = false
str_eq (c ∷ s) [] = false
str_eq (c ∷ s) (d ∷ t) = c == d && str_eq s t

pub starts_with : Bytes → Bytes → Bool
starts_with s [] = true
starts_with [] (d ∷ t) = false
starts_with (c ∷ s) (d ∷ t) = c == d && starts_with s t

-- `strstr(s, t)` as a condition
unfoldable pub strstr : Bytes → Bytes → Bool
unfolding starts_with
strstr [] t = starts_with [] t
strstr (c ∷ s) t = starts_with (c ∷ s) t || strstr s t

-- A string in a `char` array of `cap` bytes: `strcpy` and `strcat` need room for the NUL too.
unfoldable pub strcpy : ℕ → Bytes → Result Bytes
strcpy cap s = if ltb (length s) cap then ok s else fault buffer_overflow

unfoldable pub strcat : ℕ → Bytes → Bytes → Result Bytes
strcat cap msg s = if ltb (length msg + length s) cap then ok (msg ++ s) else fault buffer_overflow

-- A row of `strcat` calls on one array.
unfoldable pub strcat_all : ℕ → Bytes → List Bytes → Result Bytes
strcat_all cap msg [] = ok msg
strcat_all cap msg (s ∷ rest) = do msg' ← strcat cap msg s; strcat_all cap msg' rest
