-- ===== src/Libc/Decimal/Print.antt =====
-- What `cat_num_to_msg` writes, and what `atoi` reads of it.
use native.Mathlib.Nat.{pow-suc}
use np.Prelude.{
  ℕ, zero, suc, ◌+◌, ◌-◌, ◌*◌, ◌/◌, ◌%◌, ◌^◌, ◌≤◌, ◌<◌, ◌≡◌, refl, ap, ◌∙◌, [], ◌∷◌, ◌++◌, some,
  arith, length, All, ok, pos, true, false, Bool-cases, inl, inr, ◌==◌, if◌then◌else◌,
}
use np.Libc.{Bytes}
use np.Libc.Buffers.{strcat_lem}
use np.Libc.Decimal.{
  int_to_char, count_digits, fill, num_str, cat_num_to_msg, is_digit, digits_value, skip_space,
  int_max, atoi, signed, in_int,
}

int_to_char_lem : (d : ℕ) → d < 10 → int_to_char d ≡ some (b'0' + d)
unfolding int_to_char
int_to_char_lem d h = ground arith

-- Reading the digit of `d` behind the number `m`.
value_digit :
    (m d : ℕ) (s : Bytes) → d < 10 → digits_value m ((b'0' + d) ∷ s) ≡ digits_value (m * 10 + d) s
unfolding digits_value
value_digit m d s h = ground (arith, shift)
  where
    shift : digits_value (m * 10 + (b'0' + d - b'0')) s ≡ digits_value (m * 10 + d) s
    shift = ap (λ t. digits_value t s) (omega arith)

abbrev pub AllDigits : Bytes → Type 0
AllDigits = All (λ c. is_digit c ≡ true)

-- `ds` are `i` digits in front of `done`; read behind `m` they stand for `num`.
abbrev Filled : ℕ → ℕ → Bytes → Bytes → Type 0
Filled i num done ds =
    ((m : ℕ) → digits_value m ds ≡ digits_value (m * 10 ^ i + num) done)
    × (length ds ≡ i + length done)
    × (AllDigits done → AllDigits ds)

fill_step :
    (i num : ℕ) (done : Bytes)
    → fill (suc i) num done ≡ fill i (num / 10) ((b'0' + num % 10) ∷ done)
unfolding fill
fill_step i num done = rw (int_to_char_lem (num % 10) (omega arith), fill)

fill_lem :
    (i num : ℕ) (done : Bytes)
    → num < 10 ^ i
    → (ds : Bytes) × (fill i num done ≡ some ds) × Filled i num done ds
fill_lem zero num done h = (
  done,
  unfold fill in refl,
  (λ m. ap (λ t. digits_value t done) (omega arith), omega arith, λ a. a),
)
fill_lem (suc i) num done h = one_more (fill_lem i (num / 10) ((b'0' + num % 10) ∷ done) smaller)
  where
    smaller : num / 10 < 10 ^ i
    smaller = omega (arith, pow-suc 10 i)

    whole : (m : ℕ) → (m * 10 ^ i + num / 10) * 10 + num % 10 ≡ m * 10 ^ suc i + num
    whole m = omega (arith, ap (λ t. m * t) (pow-suc 10 i))

    one_more :
        ((ds : Bytes) × (fill i (num / 10) ((b'0' + num % 10) ∷ done) ≡ some ds)
          × Filled i (num / 10) ((b'0' + num % 10) ∷ done) ds)
        → (ds : Bytes) × (fill (suc i) num done ≡ some ds) × Filled (suc i) num done ds
    one_more (ds, filled, (value, size, digits)) = (
      ds,
      fill_step i num done ∙ filled,
      (
        λ m.
            value m
            ∙ value_digit (m * 10 ^ i + num / 10) (num % 10) done (omega arith)
            ∙ ap (λ t. digits_value t done) (whole m),
        omega arith,
        λ a. digits (ground arith, a),
      ),
    )

-- The count of digits is the least number of rounds that takes the number to 0.
count_digits_lem :
    (fuel b tmp len : ℕ)
    → tmp < 10 ^ b
    → b ≤ fuel
    → (d : ℕ) × (count_digits fuel tmp len ≡ len + d) × (tmp < 10 ^ d) × (d ≤ b)
unfolding count_digits
count_digits_lem zero zero tmp len h le = (0, omega arith, h, omega arith)
count_digits_lem zero (suc b) tmp len h le = absurd (omega arith)
count_digits_lem (suc fuel) zero tmp len h le = (0, ground arith, h, omega arith)
count_digits_lem (suc fuel) (suc b) tmp len h le = elim (Bool-cases (tmp == 0)) [
  | inl t ↦ (0, ground arith, ground arith, omega arith)
  | inr t ↦
      more t
        (count_digits_lem fuel b (tmp / 10) (len + 1) (omega (arith, pow-suc 10 b)) (omega arith))
]
  where
    more :
        (tmp == 0) ≡ false
        → ((d : ℕ) × (count_digits fuel (tmp / 10) (len + 1) ≡ len + 1 + d)
            × (tmp / 10 < 10 ^ d)
            × (d ≤ b))
        → (d : ℕ) × ((if tmp == 0 then len else count_digits fuel (tmp / 10) (len + 1)) ≡ len + d)
          × (tmp < 10 ^ d)
          × (d ≤ suc b)
    more t (d, e, lt, le') = (suc d, rw t (omega arith), omega (arith, pow-suc 10 d), omega arith)

-- What is known of the text of a number below `10 ^ i`.
pub record IsDecimal (num i : ℕ) (ds : Bytes) : Type 0 where
  pub digits : AllDigits ds
  pub value : digits_value 0 ds ≡ num
  pub nonempty : 0 < length ds
  pub short : length ds ≤ i

IsDecimal-of :
    (num d i : ℕ)
    → num < 10 ^ d
    → 0 < d
    → d ≤ i
    → (ds : Bytes) × (fill d num [] ≡ some ds) × IsDecimal num i ds
IsDecimal-of num d i h p q =
    let (ds, filled, (value, size, digits)) = fill_lem d num [] h in
    (
      ds,
      filled,
      record {
        digits = digits tt;
        value = value 0 ∙ (unfold digits_value in omega arith);
        nonempty = omega arith;
        short = omega arith;
      },
    )

num_str-fill :
    (num n : ℕ) → (if num == 0 then 1 else count_digits 11 num 0) ≡ n → num_str num ≡ fill n num []
unfolding num_str
num_str-fill num n e = ap (λ t. fill t num []) e

some_digit : (num d : ℕ) → (num == 0) ≡ false → num < 10 ^ d → 0 < d
some_digit num zero t lt = absurd (ground arith)
some_digit num (suc d) t lt = omega arith

-- A number of at most ten digits is written as its decimal digits: between one and `i` of them if it
-- is below `10 ^ i`, and they stand for the number.
pub num_str_lem :
    (num i : ℕ)
    → num < 10 ^ i
    → 0 < i
    → i ≤ 10
    → (ds : Bytes) × (num_str num ≡ some ds) × IsDecimal num i ds
num_str_lem num i h p le = elim (Bool-cases (num == 0)) [
  | inl t ↦
      let (ds, filled, dec) = IsDecimal-of num 1 i (ground arith) (omega arith) p in
      (ds, num_str-fill num 1 (rw t) ∙ filled, dec)
  | inr t ↦
      let (d, e, lt, le') = count_digits_lem 11 i num 0 h (omega arith) in
      let (ds, filled, dec) = IsDecimal-of num d i lt (some_digit num d t lt) le' in
      (ds, num_str-fill num d (rw t (e ∙ omega arith)) ∙ filled, dec)
]

cat_text :
    (cap : ℕ) (msg ds : Bytes) (num : ℕ)
    → num_str num ≡ some ds
    → length msg + length ds < cap
    → cat_num_to_msg cap msg num ≡ ok (msg ++ ds)
unfolding cat_num_to_msg
cat_text cap msg ds num e room = rw e (strcat_lem cap msg ds room)

-- For a number below `10 ^ i` with `i` from 1 to 10, and an array with room for the text in it, `i`
-- digits and the NUL, `cat_num_to_msg` appends between one and `i` decimal digits, whose value is the number.
pub cat_num_to_msg_lem :
    (cap : ℕ) (msg : Bytes) (num i : ℕ)
    → num < 10 ^ i
    → 0 < i
    → i ≤ 10
    → length msg + i < cap
    → (ds : Bytes) × (cat_num_to_msg cap msg num ≡ ok (msg ++ ds)) × IsDecimal num i ds
cat_num_to_msg_lem cap msg num i h p le room = append (num_str_lem num i h p le)
  where
    append :
        ((ds : Bytes) × (num_str num ≡ some ds) × IsDecimal num i ds)
        → (ds : Bytes) × (cat_num_to_msg cap msg num ≡ ok (msg ++ ds)) × IsDecimal num i ds
    append (ds, e, dec) = (ds, cat_text cap msg ds num e (omega (arith, dec.short)), dec)

-- `atoi` reads the text of a number back, if the number is an `int`.
signed_digits :
    (ds : Bytes) → AllDigits ds → 0 < length ds → signed (skip_space ds) ≡ pos (digits_value 0 ds)
unfolding signed skip_space
signed_digits [] a h = elim h [ ]
signed_digits (c ∷ ds) (d, a) h = ground arith

int_fits : (num : ℕ) → num ≤ int_max → in_int (pos num) ≡ true
unfolding in_int
int_fits num h = ground arith

atoi_of :
    (ds : Bytes) (num : ℕ)
    → signed (skip_space ds) ≡ pos num
    → num ≤ int_max
    → atoi ds ≡ ok (pos num)
unfolding atoi
atoi_of ds num e h = rw (e, int_fits num h)

-- What `cat_num_to_msg` writes of a nonnegative `int` into an empty array of at least 11 bytes, `atoi`
-- reads back.
pub atoi-cat_num_to_msg :
    (cap num : ℕ)
    → num ≤ int_max
    → 10 < cap
    → (ds : Bytes) × (cat_num_to_msg cap [] num ≡ ok ds) × (atoi ds ≡ ok (pos num))
atoi-cat_num_to_msg cap num h room =
    read (cat_num_to_msg_lem cap [] num 10 (omega arith) (omega arith) (omega arith) (omega arith))
  where
    read :
        ((ds : Bytes) × (cat_num_to_msg cap [] num ≡ ok ds) × IsDecimal num 10 ds)
        → (ds : Bytes) × (cat_num_to_msg cap [] num ≡ ok ds) × (atoi ds ≡ ok (pos num))
    read (ds, e, dec) =
        (ds, e, atoi_of ds num (signed_digits ds dec.digits dec.nonempty ∙ ap pos dec.value) h)
