-- ===== src/Socks/Request.antt =====
-- The fields of a SOCKS4/4A request, as `session` reads them from its buffer.
use np.Prelude.{
  ℕ, zero, suc, ◌+◌, ◌*◌, ◌≡◌, refl, Bool, false, ◌&&◌, List, [], ◌∷◌, ◌++◌, Option, if◌then◌else◌,
  ◌==◌, get_elem?, Result, ok, fault, or_fault, ◌>>=◌, out_of_bounds, exception, All,
}
use np.Libc.{Bytes}

abbrev pub max_length : ℕ
max_length = 1024

-- An address that the resolver gives.
pub record Endpoint : Type 0 where
  pub is_v4 : Bool
  pub address : Bytes

-- What the session uses of the standard library and of Boost: `std::to_string`, the resolver, which
-- throws an exception (`none`) if it finds nothing, and the port that a new acceptor is bound to.
pub record Host : Type 0 where
  pub to_string : ℕ → Bytes
  pub resolve : Bytes → Option (List Endpoint)
  pub local_port : ℕ

-- `socks4_request[i]`
unfoldable pub byte_at : Bytes → ℕ → Result ℕ
byte_at socks4_request i = or_fault (get_elem? socks4_request i) out_of_bounds

unfoldable pub get_dest_port : Host → Bytes → Result Bytes
unfolding byte_at
get_dest_port host socks4_request = do
  high ← byte_at socks4_request 2
  low ← byte_at socks4_request 3
  ok (host.to_string (high * 256 + low))

-- `while ((int)socks4_request[count]) { … }`: the bytes up to the next NUL, and what is behind it. The
-- loop does not stop at the end of the buffer.
unfoldable pub until_nul : Bytes → Result (Bytes × Bytes)
until_nul [] = fault out_of_bounds
until_nul (b ∷ rest) = do
  let later = until_nul rest
  if b == 0 then ok ([], rest) else (do (name, behind) ← later; ok (b ∷ name, behind))

-- The bytes from position `i` on.
abbrev pub from : ℕ → Bytes → Bytes
from zero l = l
from (suc i) [] = []
from (suc i) (b ∷ l) = from i l

-- `domain_name`: the text behind the user's name.
unfoldable pub read_domain_name : Bytes → Result Bytes
unfolding until_nul
read_domain_name socks4_request = do
  (user, behind) ← until_nul (from 8 socks4_request)
  (domain_name, rest) ← until_nul behind
  ok domain_name

-- The first IPv4 address; `dest_ip` stays empty if there is none.
unfoldable pub first_v4 : List Endpoint → Bytes
first_v4 [] = []
first_v4 (e ∷ rest) = let later = first_v4 rest in if e.is_v4 then e.address else later

unfoldable pub get_domain_name : Host → Bytes → Result Bytes
unfolding read_domain_name first_v4
get_domain_name host socks4_request = do
  domain_name ← read_domain_name socks4_request
  endpoints ← or_fault (host.resolve domain_name) exception
  ok (first_v4 endpoints)

-- The four bytes with dots between them.
abbrev pub dotted : Host → ℕ → ℕ → ℕ → ℕ → Bytes
dotted host a b c d =
    host.to_string a
    ++ (b'.' ∷ (host.to_string b ++ (b'.' ∷ (host.to_string c ++ (b'.' ∷ host.to_string d)))))

unfoldable pub get_dest_ip : Host → Bytes → Result Bytes
unfolding byte_at get_domain_name
get_dest_ip host socks4_request = do
  a ← byte_at socks4_request 4
  b ← byte_at socks4_request 5
  c ← byte_at socks4_request 6
  d ← byte_at socks4_request 7
  if a == 0 && b == 0 && c == 0
      then get_domain_name host socks4_request
      else ok (dotted host a b c d)

until_nul-text :
    (t rest : Bytes) → All (λ b. (b == 0) ≡ false) t → until_nul (t ++ (0 ∷ rest)) ≡ ok (t, rest)
unfolding until_nul
until_nul-text [] rest h = refl
until_nul-text (b ∷ t) rest (here, h) = rw (here, until_nul-text t rest h) refl

-- In a request with eight bytes, a user's name and a domain name without NULs, each with a NUL behind
-- it, the domain name is found, whatever follows in the buffer.
pub read_domain_name_lem :
    (v c p q x y z w : ℕ) (user domain rest : Bytes)
    → All (λ b. (b == 0) ≡ false) user
    → All (λ b. (b == 0) ≡ false) domain
    → read_domain_name
        ((v ∷ c ∷ p ∷ q ∷ x ∷ y ∷ z ∷ w ∷ []) ++ (user ++ (0 ∷ (domain ++ (0 ∷ rest)))))
      ≡ ok domain
unfolding read_domain_name
read_domain_name_lem v c p q x y z w user domain rest hu hd =
    rw (until_nul-text user (domain ++ (0 ∷ rest)) hu, until_nul-text domain rest hd) refl
