-- ===== src/Socks/Firewall.antt =====
-- `check_dest_ip`: may a client have this address? The rules are the lines of socks.conf.
use np.Prelude.{
  ℕ, ◌≡◌, ◌≢◌, refl, ap, ◌∙◌, Bool, true, false, ◌&&◌, ◌||◌, List, [], ◌∷◌, ◌++◌, Option, none,
  some, if◌then◌else◌, ◌==◌, All, arith,
}
use mathlib.Core.List.{map}
use np.Libc.{Bytes, str_eq}

-- A line of socks.conf: `op_type[0]` and `ip`.
pub record Rule : Type 0 where
  pub op_type : ℕ
  pub ip : Bytes

-- `while (dest_ip[count] != '\0' && dest_ip[count] != '.') count++;`
unfoldable pub skip_field : Bytes → Bytes
skip_field [] = []
skip_field (d ∷ dest) = let later = skip_field dest in if d == b'.' then d ∷ dest else later

-- The loop over both texts, and the test behind it. Each round goes on in the text of the rule.
unfoldable pub same_str : Bytes → Bytes → Bool
unfolding skip_field
same_str [] [] = true
same_str (d ∷ dest) [] = false
same_str [] (p ∷ ip) = false
same_str (d ∷ dest) (p ∷ ip) =
    let next = same_str dest ip in
    let behind_field = same_str (skip_field (d ∷ dest)) ip in
    if d == p then next else if p == b'*' then behind_field else false

-- 1 is CONNECT and 2 is BIND.
unfoldable pub same_type : ℕ → ℕ → Bool
same_type operation op_type = operation == 1 && op_type == b'c' || operation == 2 && op_type == b'b'

unfoldable pub check_dest_ip : ℕ → Bytes → List Rule → Bool
unfolding same_type same_str
check_dest_ip operation dest_ip [] = false
check_dest_ip operation dest_ip (rule ∷ rules) =
    let later = check_dest_ip operation dest_ip rules in
    if same_type operation rule.op_type && same_str dest_ip rule.ip then true else later

-- A field of an address, without dots or stars, and not empty.
abbrev IsPlain : Bytes → Type 0
IsPlain = All (λ b. ((b == b'.') ≡ false) × ((b == b'*') ≡ false))

abbrev pub IsField : Bytes → Type 0
IsField t = (t ≢ []) × IsPlain t

-- The fields behind the first, each with a dot before it.
abbrev pub fields : List Bytes → Bytes
fields [] = []
fields (t ∷ ts) = b'.' ∷ t ++ fields ts

-- A field of a rule: a star (`none`) or a text.
abbrev pub field_text : Option Bytes → Bytes
field_text none = b'*' ∷ []
field_text (some u) = u

abbrev pub field_texts : List (Option Bytes) → Bytes
field_texts [] = []
field_texts (f ∷ fs) = b'.' ∷ field_text f ++ field_texts fs

abbrev pub field_fits : Bytes → Option Bytes → Bool
field_fits t none = true
field_fits t (some u) = str_eq t u

abbrev pub fits : List Bytes → List (Option Bytes) → Bool
fits [] [] = true
fits [] (f ∷ fs) = false
fits (t ∷ ts) [] = false
fits (t ∷ ts) (f ∷ fs) = field_fits t f && fits ts fs

abbrev IsRuleField : Option Bytes → Type 0
IsRuleField none = Unit
IsRuleField (some u) = IsField u

skip_field-fields :
    (t : Bytes) (ts : List Bytes) → IsPlain t → skip_field (t ++ fields ts) ≡ fields ts
unfolding skip_field
skip_field-fields [] [] h = refl
skip_field-fields [] (t ∷ ts) h = refl
skip_field-fields (b ∷ t) ts ((dot, star), h) = rw dot (skip_field-fields t ts h)

same_str-text :
    (t u : Bytes) (ts : List Bytes) (fs : List (Option Bytes))
    → IsPlain t
    → IsPlain u
    → same_str (t ++ fields ts) (u ++ field_texts fs)
      ≡ (str_eq t u && same_str (fields ts) (field_texts fs))
unfolding same_str str_eq
same_str-text [] [] ts fs ht hu = refl
same_str-text [] (c ∷ u) [] fs ht hu = refl
same_str-text [] (c ∷ u) (t ∷ ts) fs ht ((dot, star), hu) = ground arith
same_str-text (b ∷ t) [] ts [] ht hu = refl
same_str-text (b ∷ t) [] ts (f ∷ fs) ((dot, star), ht) hu = ground arith
same_str-text (b ∷ t) (c ∷ u) ts fs ((dot, star), ht) ((dot', star'), hu) =
    ground (arith, same_str-text t u ts fs ht hu)

same_str-field :
    (t : Bytes) (f : Option Bytes) (ts : List Bytes) (fs : List (Option Bytes))
    → IsField t
    → IsRuleField f
    → same_str (t ++ fields ts) (field_text f ++ field_texts fs)
      ≡ (field_fits t f && same_str (fields ts) (field_texts fs))
unfolding same_str
same_str-field t (some u) ts fs (full, ht) (full', hu) = same_str-text t u ts fs ht hu
same_str-field [] none ts fs (full, ht) hf = absurd (full refl)
same_str-field (b ∷ t) none ts fs (full, ((dot, star), ht)) hf =
    rw (star, skip_field-fields (b ∷ t) ts ((dot, star), ht)) refl

same_str-fields :
    (ts : List Bytes) (fs : List (Option Bytes))
    → All IsField ts
    → All IsRuleField fs
    → same_str (fields ts) (field_texts fs) ≡ fits ts fs
unfolding same_str
same_str-fields [] [] ht hf = refl
same_str-fields [] (f ∷ fs) ht hf = refl
same_str-fields (t ∷ ts) [] ht hf = refl
same_str-fields (t ∷ ts) (f ∷ fs) (h, ht) (h', hf) =
    same_str-field t f ts fs h h' ∙ ap (λ x. field_fits t f && x) (same_str-fields ts fs ht hf)

-- A rule by its fields.
pub record FieldRule : Type 0 where
  pub op_type : ℕ
  pub first : Option Bytes
  pub others : List (Option Bytes)

abbrev pub written : FieldRule → Rule
written r = record { op_type = r.op_type; ip = field_text r.first ++ field_texts r.others }

abbrev pub IsRule : FieldRule → Type 0
IsRule r = IsRuleField r.first × All IsRuleField r.others

-- Some rule is for the operation, and each of its fields is a star or the field of the address.
abbrev pub allowed : ℕ → Bytes → List Bytes → List FieldRule → Bool
allowed operation t ts [] = false
allowed operation t ts (r ∷ rules) =
    same_type operation r.op_type && (field_fits t r.first && fits ts r.others)
    || allowed operation t ts rules

-- An address of any number of fields, none of them empty and without dots or stars, passes `check_dest_ip` just
-- if a rule for the operation allows it field by field: as many fields, each a star or the same text.
-- The fields of the rules that are not stars are not empty and have no dots or stars in them.
pub check_dest_ip_lem :
    (operation : ℕ) (t : Bytes) (ts : List Bytes) (rules : List FieldRule)
    → IsField t
    → All IsField ts
    → All IsRule rules
    → check_dest_ip operation (t ++ fields ts) (map written rules) ≡ allowed operation t ts rules
unfolding check_dest_ip
check_dest_ip_lem operation t ts [] h ht hr = refl
check_dest_ip_lem operation t ts (r ∷ rules) h ht ((hf, hfs), hr) =
    rw
      (
        same_str-field t r.first ts r.others h hf,
        same_str-fields ts r.others ht hfs,
        check_dest_ip_lem operation t ts rules h ht hr,
      )
      (or_if (same_type operation r.op_type && (field_fits t r.first && fits ts r.others)) _)
  where
    or_if : (b c : Bool) → (if b then true else c) ≡ (b || c)
    or_if true c = refl
    or_if false c = refl

same_str-empty : (ip : Bytes) → ip ≢ [] → same_str [] ip ≡ false
unfolding same_str
same_str-empty [] full = absurd (full refl)
same_str-empty (p ∷ ip) full = refl

-- The empty address, of a name that has no IPv4 address, passes with no rule whose text is not empty.
pub check_dest_ip-empty :
    (operation : ℕ) (rules : List Rule)
    → All (λ r. r.ip ≢ []) rules
    → check_dest_ip operation [] rules ≡ false
unfolding check_dest_ip
check_dest_ip-empty operation [] h = refl
check_dest_ip-empty operation (r ∷ rules) (full, h) =
    rw (same_str-empty r.ip full, check_dest_ip-empty operation rules h)
      (no_match (same_type operation r.op_type))
  where
    no_match : (b : Bool) → (if b && false then true else false) ≡ false
    no_match true = refl
    no_match false = refl
