-- ===== src/Web/Request.antt =====
-- `make_socks4a_request` of the proxy's console, and what the proxy makes of the request.
use np.Prelude.{
  ℕ, ◌+◌, ◌-◌, ◌*◌, ◌/◌, ◌%◌, ◌<◌, ◌≤◌, ◌≡◌, refl, sym, ap, ◌∙◌, Bool, true, false, ◌||◌, List, [],
  ◌∷◌, ◌++◌, if◌then◌else◌, ◌==◌, leb, length, ℤ, pos, negsuc, Result, ok, fault, or_fault, ◌>>=◌,
  >>=-assoc, out_of_bounds, exception, All, All-append, append_assoc, arith,
}
use np.Libc.{Bytes}
use np.Libc.Decimal.{atoi, is_digit, skip_space}
use np.Socks.Request.{
  Host, byte_at, get_dest_port, get_domain_name, read_domain_name, read_domain_name_lem,
  get_dest_ip, first_v4,
}
use np.Socks.Firewall.{Rule, check_dest_ip}
use np.Socks.Session.{connect, reply, reject_reply, do_read}

-- A sign and a digit, or a digit.
has_number : Bytes → Bool
has_number [] = false
has_number (c ∷ []) = is_digit c
has_number (c ∷ d ∷ s) = is_digit c || (if c == b'-' || c == b'+' then is_digit d else false)

-- `std::stoi`, which throws an exception if there is no number, or one that is no `int`.
unfoldable pub stoi : Bytes → Result ℤ
unfolding has_number skip_space atoi
stoi s =
    if has_number (skip_space s)
    then elim (atoi s) [ ok n ↦ ok n | fault e ↦ fault exception ]
    else fault exception

-- `port / 256` and `port % 256` in an `unsigned char`.
abbrev pub high_byte : ℤ → ℕ
high_byte (pos n) = n / 256 % 256
high_byte (negsuc n) = (256 - (n + 1) / 256 % 256) % 256

abbrev pub low_byte : ℤ → ℕ
low_byte (pos n) = n % 256
low_byte (negsuc n) = (256 - (n + 1) % 256) % 256

-- The bytes that are sent: the answer is their number, in an array of 100 bytes.
unfoldable pub make_socks4a_request : Bytes → Bytes → Result Bytes
unfolding stoi
make_socks4a_request proxy_dest_port proxy_dest_domain_name = do
  port ← stoi proxy_dest_port
  if leb (length proxy_dest_domain_name + 9) 100
      then ok (4 ∷ 1 ∷ high_byte port ∷ low_byte port ∷ 0 ∷ 0 ∷ 0 ∷ 1 ∷ 0 ∷ proxy_dest_domain_name)
      else fault out_of_bounds

stoi_test :
    (stoi (48 ∷ []) ≡ ok (pos 0))
    × ((stoi [] ≡ fault exception) × (stoi (b'-' ∷ b'1' ∷ []) ≡ ok (negsuc 0)))
unfolding stoi
stoi_test = (refl, (refl, refl))

make_lem :
    (port_text domain : Bytes) (port : ℕ)
    → stoi port_text ≡ ok (pos port)
    → length domain ≤ 91
    → make_socks4a_request port_text domain
      ≡ ok (4 ∷ 1 ∷ port / 256 % 256 ∷ port % 256 ∷ 0 ∷ 0 ∷ 0 ∷ 1 ∷ 0 ∷ domain)
unfolding make_socks4a_request
make_lem port_text domain port number short =
    let fits : leb (length domain + 9) 100 ≡ true = ground arith in rw (number, fits) refl

-- The request of the console for a port of 16 bits and a host of at most 91 bytes without a NUL ends with
-- the host, and no NUL is sent. The proxy takes the bytes of its buffer up to the next NUL, `left_over`,
-- for the end of the name: it resolves the host with these behind it, and connects to the first IPv4
-- address of that name, on the port, if the rules allow it, and else refuses with code 91.
pub do_read-make_socks4a_request :
    (host : Host) (rules : List Rule) (port_text domain left_over rest : Bytes) (port : ℕ)
    → stoi port_text ≡ ok (pos port)
    → port < 65536
    → length domain ≤ 91
    → All (λ b. (b == 0) ≡ false) domain
    → All (λ b. (b == 0) ≡ false) left_over
    → (do
      request ← make_socks4a_request port_text domain
      do_read host rules (request ++ (left_over ++ (0 ∷ rest))))
      ≡ (do
        endpoints ← or_fault (host.resolve (domain ++ left_over)) exception
        let dest_ip = first_v4 endpoints
        ok (
            if check_dest_ip 1 dest_ip rules
            then connect dest_ip (host.to_string port) ∷ []
            else reply reject_reply ∷ []))
unfolding do_read get_dest_port get_dest_ip byte_at get_domain_name
do_read-make_socks4a_request host rules port_text domain left_over rest port number small short h
      h' =
    let high = port / 256 % 256 in
    let low = port % 256 in
    let whole : high * 256 + low ≡ port = omega arith in
    let name : read_domain_name
          (4 ∷ 1 ∷ high ∷ low ∷ 0 ∷ 0 ∷ 0 ∷ 1 ∷ 0 ∷ (domain ++ (left_over ++ (0 ∷ rest))))
        ≡ ok (domain ++ left_over) =
      ap (λ l. read_domain_name (4 ∷ 1 ∷ high ∷ low ∷ 0 ∷ 0 ∷ 0 ∷ 1 ∷ 0 ∷ l))
        (sym (append_assoc domain left_over (0 ∷ rest)))
      ∙ read_domain_name_lem 4 1 high low 0 0 0 1 [] (domain ++ left_over) rest tt
          (All-append _ domain left_over h h') in
    rw (make_lem port_text domain port number short, whole, name)
      (>>=-assoc (or_fault (host.resolve (domain ++ left_over)) exception)
        (λ endpoints. ok (first_v4 endpoints)) _)
