-- ===== src/Daemon/Dump.antt =====
-- Reconcile::open and Reconcile::dump of src/reconcile.cpp. The calls on the socket are parameters: what each returned is an
-- argument. What `n` is cast to is an unsigned int, so that what is left of a datagram is counted modulo 2^32.
use obserwrt.Prelude.{
  ℕ, zero, suc, ◌+◌, ◌-◌, ◌%◌, ◌^◌, Bool, true, false, ◌||◌, Option, none, some, List, [], ◌∷◌,
  ◌++◌, ◌==◌, ltb, if◌then◌else◌, Bytes, length, drop,
}
use obserwrt.Config.{is_empty}
use obserwrt.Daemon.{LinkEvent}
use obserwrt.Daemon.Netlink.{◌>>=◌, align, field, parse_link}

abbrev pub nlmsg_error : ℕ
nlmsg_error = 2

abbrev pub nlmsg_done : ℕ
nlmsg_done = 3

-- how the walk over a datagram ends: it asks for more, the dump is done, or the kernel refused it
pub data Ending : Type 0 where
  more finished refused : Ending

-- what recv returned: a datagram, EAGAIN, EWOULDBLOCK or EINTR, or another errno
pub data Received : Type 0 where
  datagram : Bytes → Received
  again : Received
  failed : ℕ → Received

-- what the request came to: calloc and sendto
pub data Request : Type 0 where
  no_memory sent : Request
  not_sent : ℕ → Request

-- the texts put into `*err`
pub data DumpError : Type 0 where
  alloc_failed : DumpError
  request_failed recv_failed : ℕ → DumpError

-- the result, `*err` where it is set, and the callbacks in order
pub record Dumped : Type 0 where
  pub ok : Bool
  pub error : Option DumpError
  pub events : List LinkEvent

abbrev earlier :
    List LinkEvent → Option (List LinkEvent × Ending) → Option (List LinkEvent × Ending)
earlier evs none = none
earlier evs (some (rest, end)) = some (evs ++ rest, end)

abbrev pub before : List LinkEvent → Option Dumped → Option Dumped
before evs none = none
before evs (some d) = some (record d { events = evs ++ d.events })

module _ (big : Bool) (m attrs : ℕ) where
  -- the loop over the messages of a datagram; `none` is a read outside of it, or fuel that ran out
  unfoldable pub walk_datagram : ℕ → Bytes → ℕ → Option (List LinkEvent × Ending)
  walk_datagram zero p left = none
  walk_datagram (suc fuel) p left =
      let next = λ (step : ℕ). walk_datagram fuel (drop step p) ((left + 2 ^ 32 - step) % 2 ^ 32) in
      if ltb left 16
      then some ([], more)
      else (field big p 0 4 >>= λ nlmsg_len.
          if ltb nlmsg_len 16 || ltb left nlmsg_len
          then some ([], more)
          else (field big p 4 2 >>= λ nlmsg_type.
              if nlmsg_type == nlmsg_done
              then some ([], finished)
              else if nlmsg_type == nlmsg_error
              then some ([], refused)
              else (parse_link big m attrs p >>= λ ev.
                  earlier (if is_empty ev.ifname then [] else ev ∷ []) (next (align nlmsg_len)))))

  -- the endless loop, over what recv returns; `none` stands for one that still waits, too
  unfoldable pub collect : ℕ → List Received → Option Dumped
  collect fuel [] = none
  collect fuel (again ∷ rs) = collect fuel rs
  collect fuel (failed e ∷ rs) =
      some (record { ok = false; error = some (recv_failed e); events = [] })
  collect fuel (datagram d ∷ rs) = elim (walk_datagram fuel d (length d)) [
    | none ↦ none
    | some (evs, more) ↦ before evs (collect fuel rs)
    | some (evs, finished) ↦ some (record { ok = true; error = none; events = evs })
    | some (evs, refused) ↦ some (record { ok = false; error = none; events = evs })
  ]

  -- `Reconcile::dump`
  unfoldable pub dump : ℕ → Request → List Received → Option Dumped
  unfolding collect
  dump fuel no_memory rs = some (record { ok = false; error = some alloc_failed; events = [] })
  dump fuel (not_sent e) rs =
      some (record { ok = false; error = some (request_failed e); events = [] })
  dump fuel sent rs = collect fuel rs

pub data OpenError : Type 0 where
  no_socket bind_failed : ℕ → OpenError

-- what socket and bind returned
pub data Opening : Type 0 where
  socket_fails bind_fails : ℕ → Opening
  opened : ℕ → Opening

-- `Reconcile::open`: the error, and `fd_` afterwards, which is none while it is negative
unfoldable pub open_socket : Option ℕ → Opening → Option OpenError × Option ℕ
open_socket (some fd) o = (none, some fd)
open_socket none (socket_fails e) = (some (no_socket e), none)
open_socket none (bind_fails e) = (some (bind_failed e), none)
open_socket none (opened fd) = (none, some fd)
