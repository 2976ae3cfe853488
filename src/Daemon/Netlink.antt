-- ===== src/Daemon/Netlink.antt =====
-- Link messages of rtnetlink (parse_link and Reconcile::dispatch of src/reconcile.cpp). A pointer into the buffer
-- is what is left of the buffer behind it, and `none` is a read outside of it, or fuel that ran out. `big`
-- is the byte order, and `m` the modulus of size_t.
use obserwrt.Prelude.{
  ℕ, zero, suc, ◌+◌, ◌-◌, ◌*◌, ◌/◌, ◌%◌, Bool, ◌&&◌, ◌||◌, Option, none, some, List, [], ◌∷◌, ◌++◌,
  ◌==◌, ltb, if◌then◌else◌, Bytes, length, take, drop, be_value, le_value,
}
use obserwrt.Config.{is_empty}
use obserwrt.Daemon.{LinkEvent}

abbrev pub rtm_newlink : ℕ
rtm_newlink = 16

abbrev pub rtm_dellink : ℕ
rtm_dellink = 17

abbrev pub ifla_ifname : ℕ
ifla_ifname = 3

-- NLMSG_ALIGN and RTA_ALIGN
abbrev pub align : ℕ → ℕ
align n = (n + 3) / 4 * 4

-- a field of a struct at the pointer
unfoldable pub field : Bool → Bytes → ℕ → ℕ → Option ℕ
field big p off w =
    if ltb (length p) (off + w)
    then none
    else some (if big then be_value 0 (take w (drop off p)) else le_value (take w (drop off p)))

infixl 5 ◌>>=◌
abbrev pub ◌>>=◌ : {A B : Type 0} → Option A → (A → Option B) → Option B
none >>= f = none
some a >>= f = f a

-- `ifname.assign(RTA_DATA(rta), RTA_PAYLOAD(rta) - 1)`
unfoldable pub assigned_name : Bytes → ℕ → Option Bytes
assigned_name p rta_len =
    if ltb (length p) (rta_len - 1) then none else some (take (rta_len - 4 - 1) (drop 4 p))

module _ (big : Bool) (m : ℕ) where
  -- the loop over the attributes, with the name found so far
  unfoldable pub parse_attrs : ℕ → Bytes → ℕ → Bytes → Option Bytes
  parse_attrs zero p len name = none
  parse_attrs (suc fuel) p len name =
      let next = λ (rta_len : ℕ) (name' : Bytes).
        parse_attrs fuel (drop (align rta_len) p) ((len + m - align rta_len) % m) name' in
      if ltb len 4
      then some name
      else (field big p 0 2 >>= λ rta_len.
          if ltb rta_len 4 || ltb len rta_len
          then some name
          else (field big p 2 2 >>= λ rta_type.
              if rta_type == ifla_ifname && ltb 0 (rta_len - 4)
              then (assigned_name p rta_len >>= λ name'. next rta_len name')
              else next rta_len name))

  -- `parse_link`
  unfoldable pub parse_link : ℕ → Bytes → Option LinkEvent
  parse_link fuel p = field big p 0 4 >>= λ nlmsg_len. field big p 4 2 >>= λ nlmsg_type.
      field big p 18 2 >>= λ ifi_type. field big p 20 4 >>= λ ifi_index.
      field big p 24 4 >>= λ ifi_flags.
      parse_attrs fuel (drop 32 p) ((nlmsg_len + m - 32) % m) [] >>= λ name. some (record {
        ifindex = ifi_index;
        ifname = name;
        type = ifi_type;
        present = nlmsg_type == rtm_newlink;
        up = ifi_flags % 2 == 1;
      })

  -- the callbacks for one message
  unfoldable pub events_at : ℕ → Bytes → Option (List LinkEvent)
  events_at fuel p = field big p 4 2 >>= λ nlmsg_type.
      if nlmsg_type == rtm_newlink || nlmsg_type == rtm_dellink
      then (parse_link fuel p >>= λ ev. some (if is_empty ev.ifname then [] else ev ∷ []))
      else some []

  -- `Reconcile::dispatch`: the callbacks, in order; the first fuel is that of the attributes
  unfoldable pub dispatch : ℕ → ℕ → Bytes → ℕ → Option (List LinkEvent)
  dispatch attrs zero p left = none
  dispatch attrs (suc fuel) p left =
      let next = λ (step : ℕ). dispatch attrs fuel (drop step p) ((left + m - step) % m) in
      if ltb left 16
      then some []
      else (field big p 0 4 >>= λ nlmsg_len.
          if ltb nlmsg_len 16 || ltb left nlmsg_len
          then some []
          else (events_at attrs p >>= λ evs. next (align nlmsg_len) >>= λ rest. some (evs ++ rest)))
