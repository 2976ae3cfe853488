-- ===== src/Udp.antt =====
-- The remote endpoint (src/udp_client.hpp, src/udp_client.cpp). The socket calls are parameters:
-- `Candidate` is one result of getaddrinfo with the outcome of socket() and bind() for it, and
-- `delivered` says whether sendto took a whole datagram, after those handed to it before.
use obserwrt.Prelude.{
  ℕ, ◌+◌, ◌%◌, ◌^◌, ◌<◌, ◌≡◌, refl, Bool, true, false, ◌&&◌, ◌||◌, ◌==◌, not, Option, none, some,
  List, [], ◌∷◌, ◌++◌, if◌then◌else◌, Bytes, arith,
}

-- the modulus of the `unsigned long` that counts failures, on the 32-bit targets
abbrev pub ulong : ℕ
ulong = 2 ^ 32

-- `class UdpClient`: `to` is the descriptor and the address, none while `fd_` is negative;
-- `handed` is what sendto was handed, taken or not.
pub record UdpClient : Type 0 where
  pub to : Option ℕ
  pub failures : ℕ
  pub handed : List Bytes

abbrev pub closed : UdpClient
closed = record { to = none; failures = 0; handed = [] }

pub data ConnectError : Type 0 where
  cannot_resolve no_usable_address bind_source_failed : ConnectError

pub record Candidate : Type 0 where
  pub address : ℕ
  pub socket_ok : Bool
  -- bind_source: the source parses in the candidate's family, which is IPv4 or IPv6, and binds
  pub source_ok : Bool

-- `bind_source`, on whether inet_pton takes the source in the candidate's family, and bind takes it; AF_INET
-- is 2 and AF_INET6 is 10
pub data BindError : Type 0 where
  not_bound unsupported_family : BindError

unfoldable pub bind_source : ℕ → Bool → Bool → Option BindError
bind_source family parses binds =
    if family == 2 || family == 10
    then (if parses && binds then none else some not_bound)
    else some unsupported_family

abbrev bound : Option BindError → Bool
bound none = true
bound (some e) = false

-- what the loop of `connect` finds of an entry of getaddrinfo's list
unfoldable pub candidate : ℕ → ℕ → Bool → Bool → Bool → Candidate
unfolding bind_source
candidate address family opens parses binds = record {
  address = address;
  socket_ok = opens;
  source_ok = bound (bind_source family parses binds);
}

-- `connected`
unfoldable pub connected : UdpClient → Bool
connected u = elim u.to [ none ↦ false | some a ↦ true ]

-- the loop over the candidates; the flag is `!source_addr.empty()`
unfoldable pub try_candidates : Bool → List Candidate → Option ℕ
try_candidates has_source [] = none
try_candidates has_source (c ∷ cs) =
    let rest = try_candidates has_source cs in
    if not c.socket_ok then rest else if has_source && not c.source_ok then rest else some c.address

-- `connect`, on what getaddrinfo returned (none: it failed, or returned no list)
unfoldable pub connect :
    Option (List Candidate) → Bool → UdpClient → Option ConnectError × UdpClient
unfolding try_candidates
connect none has_source u = (some cannot_resolve, u)
connect (some cs) has_source u = elim (try_candidates has_source cs) [
  | none ↦ (some (if has_source then bind_source_failed else no_usable_address), u)
  | some a ↦ (none, record u { to = some a })
]

-- `send`
unfoldable pub send : (List Bytes → Bytes → Bool) → UdpClient → Bytes → Bool × UdpClient
send delivered u d = elim u.to [
  | none ↦ (false, record u { failures = (u.failures + 1) % ulong })
  | some a ↦
      if delivered u.handed d
      then (true, record u { handed = u.handed ++ d ∷ [] })
      else (false, record u { failures = (u.failures + 1) % ulong; handed = u.handed ++ d ∷ [] })
]

-- `take_failures`
unfoldable pub take_failures : UdpClient → ℕ × UdpClient
take_failures u = (u.failures, record u { failures = 0 })

-- what a list of sends does
unfoldable pub send_all : (List Bytes → Bytes → Bool) → UdpClient → List Bytes → ℕ × UdpClient
unfolding send
send_all delivered u [] = (0, u)
send_all delivered u (d ∷ ds) =
    let (sent, u') = send delivered u d in
    let (lost, u'') = send_all delivered u' ds in ((if sent then 0 else 1) + lost, u'')

send-failures :
    (delivered : List Bytes → Bytes → Bool) (u : UdpClient) (d : Bytes)
    → u.failures < ulong
    → (send delivered u d).1.failures
      ≡ (u.failures + (if (send delivered u d).0 then 0 else 1)) % ulong
unfolding send
send-failures delivered u d h = ground (arith, h)

send_all-failures :
    (delivered : List Bytes → Bytes → Bool) (u : UdpClient) (ds : List Bytes)
    → u.failures < ulong
    → (send_all delivered u ds).1.failures ≡ (u.failures + (send_all delivered u ds).0) % ulong
unfolding send_all
send_all-failures delivered u [] h = omega arith
send_all-failures delivered u (d ∷ ds) h =
    ground (
      arith,
      h,
      send-failures delivered u d h,
      send_all-failures delivered (send delivered u d).1 ds,
    )

-- Between two takes of the failure counter every failed send is counted once: after a take, any
-- sends, and a second take, the second take reports how many of the sends returned false, modulo
-- the width of the counter, and the counter is zero again.
pub take_failures-send_all :
    (delivered : List Bytes → Bytes → Bool) (u : UdpClient) (ds : List Bytes)
    → let r = send_all delivered (take_failures u).1 ds in
      ((take_failures r.1).0 ≡ r.0 % ulong) × ((take_failures (take_failures r.1).1).0 ≡ 0)
unfolding take_failures
take_failures-send_all delivered u ds =
    (omega (arith, send_all-failures delivered (record u { failures = 0 }) ds (omega arith)), refl)
