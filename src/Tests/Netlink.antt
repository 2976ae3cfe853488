-- ===== src/Tests/Netlink.antt =====
-- A buffer with two link messages and one of another kind.
use obserwrt.Prelude.{
  ℕ, suc, ◌^◌, ◌<◌, ◌≡◌, refl, true, false, none, some, List, [], ◌∷◌, ◌++◌, arith, codes, length,
  replicate, le_bytes, le_value,
}
use obserwrt.Flow.{native_bytes}
use obserwrt.Daemon.Netlink.{dispatch, events_at, field, ifla_ifname}
use obserwrt.Daemon.NetlinkAttrs.{Attr, attr_bytes}
use obserwrt.Daemon.NetlinkTrip.{
  IsLinkMessage, link_bytes, LinkMessage, Message, link, other, AreMessages, buffer, message_bytes,
  events_of, dispatch-buffer,
}
use obserwrt.Daemon.Dump.{sent, dump}
use obserwrt.Daemon.DumpTrip.{
  Reply, pause, part, LastReply, AreReplies, IsLastReply, received, links_of, named_events,
  dump-received,
}

abbrev name : Attr
name = record { type = ifla_ifname; payload = codes "eth0" ++ 0 ∷ [] }

abbrev eth0 : LinkMessage
eth0 = record {
  is_new = true;
  control = replicate 12 0;
  ifi_type = 1;
  ifi_index = 3;
  ifi_flags = 0x1003;
  change = replicate 4 0;
  attrs = name ∷ [];
}

abbrev nameless : LinkMessage
nameless = record eth0 { is_new = false; attrs = [] }

abbrev pub messages : List Message
messages = link eth0 ∷ other 3 (replicate 10 0) ∷ link nameless ∷ []

pub messages-AreMessages : AreMessages false 2 messages
unfolding attr_bytes native_bytes le_bytes
messages-AreMessages = (
  record {
    control_length = refl;
    change_length = refl;
    type_fits = omega arith;
    index_fits = omega arith;
    flags_fit = omega arith;
    length_fits = omega arith;
    attrs_fit = (record { type_fits = omega arith; length_fits = omega arith }, tt);
    attrs_enough = omega arith;
  },
  (
    record {
      type_fits = omega arith;
      other_type = refl;
      body_length = omega arith;
      body_aligned = refl;
      body_fits = omega arith;
    },
    (
      record {
        control_length = refl;
        change_length = refl;
        type_fits = omega arith;
        index_fits = omega arith;
        flags_fit = omega arith;
        length_fits = omega arith;
        attrs_fit = tt;
        attrs_enough = omega arith;
      },
      tt,
    ),
  ),
)

pub buffer_short : length (buffer false messages) < 2 ^ 32
unfolding message_bytes attr_bytes native_bytes le_bytes
buffer_short = omega arith

dispatch-buffer_example :
    dispatch false (2 ^ 32) 2 4 (buffer false messages ++ 7 ∷ []) (length (buffer false messages))
    ≡ some (events_of false messages)
dispatch-buffer_example =
    dispatch-buffer false (2 ^ 32) 2 4 messages (7 ∷ []) (omega arith) messages-AreMessages
      (omega arith) buffer_short

abbrev pub replies : List Reply
replies = part (eth0 ∷ nameless ∷ []) ∷ pause ∷ []

abbrev pub last_reply : LastReply
last_reply = record { links = eth0 ∷ []; body = replicate 14 0; tail = 9 ∷ [] }

eth0-IsLinkMessage : IsLinkMessage false 2 eth0
eth0-IsLinkMessage = messages-AreMessages.0

nameless-IsLinkMessage : IsLinkMessage false 2 nameless
nameless-IsLinkMessage = messages-AreMessages.1.1.0

pub replies-AreReplies : AreReplies false (2 ^ 32) 2 4 replies
unfolding link_bytes attr_bytes native_bytes le_bytes
replies-AreReplies =
    (((eth0-IsLinkMessage, (nameless-IsLinkMessage, tt)), omega arith, omega arith), tt)

pub last_reply-IsLastReply : IsLastReply false (2 ^ 32) 2 4 last_reply
unfolding message_bytes attr_bytes native_bytes le_bytes
last_reply-IsLastReply = record {
  are_links = (eth0-IsLinkMessage, tt);
  done = record {
    type_fits = omega arith;
    other_type = refl;
    body_length = omega arith;
    body_aligned = refl;
    body_fits = omega arith;
  };
  enough = omega arith;
  short = omega arith;
}

dump-received_example :
    dump false (2 ^ 32) 2 4 sent (received false (2 ^ 32) 2 replies last_reply)
    ≡ some (record {
      ok = true;
      error = none;
      events = named_events false (2 ^ 32) 2 (links_of false (2 ^ 32) 2 replies last_reply);
    })
dump-received_example =
    dump-received false (2 ^ 32) 2 4 replies last_reply (omega arith) replies-AreReplies
      last_reply-IsLastReply

-- A last message of 17 bytes is stepped over by 20, so the 64-bit count of what is left wraps and
-- the loop reads behind the buffer, whatever the fuel.
unaligned_last :
    (fuel : ℕ)
    → dispatch false
        (2 ^ 64)
        2
        (suc (suc fuel))
        (le_bytes 4 17 ++ (le_bytes 2 3 ++ replicate 11 0))
        17
      ≡ none
unfolding dispatch events_at field le_bytes le_value
unaligned_last fuel = refl
