-- ===== src/Daemon/DumpTrip.antt =====
-- The dump of the links, as the kernel lays it out, is read back (src/reconcile.cpp).
use obserwrt.Prelude.{
  ℕ, zero, suc, ◌+◌, ◌-◌, ◌%◌, ◌^◌, ◌≤◌, ◌<◌, ◌≡◌, refl, sym, ap, ◌∙◌, Bool, true, false, ◌||◌,
  none, some, List, [], ◌∷◌, ◌++◌, arith, ◌==◌, ltb, if◌then◌else◌, Bytes, length, drop,
  length-append, append_assoc, append-nil,
}
use obserwrt.Flow.{native_bytes}
use obserwrt.Config.{is_empty}
use obserwrt.Daemon.{LinkEvent}
use obserwrt.Daemon.Netlink.{align, field, parse_link}
use obserwrt.Daemon.NetlinkAttrs.{
  drop-append_tail, length-native_bytes, field_skip, field_2, field_4, name_in,
}
use obserwrt.Daemon.NetlinkTrip.{
  LinkMessage, other, kind_of, link_bytes, message_bytes, IsLinkMessage, IsOther, event_of,
  attrs_aligned, length-link_bytes, unfolded_link, link_fields, parse_link-whole,
}
use obserwrt.Daemon.Dump.{
  nlmsg_error, nlmsg_done, Ending, more, finished, Received, datagram, again, sent, walk_datagram,
  collect, dump,
}

module _ (big : Bool) (m attrs : ℕ) where
  -- the callback for a link message, if it has a name
  abbrev pub named_event : LinkMessage → List LinkEvent
  named_event x = if is_empty (name_in big x.attrs []) then [] else event_of big x ∷ []

  abbrev pub links_bytes : List LinkMessage → Bytes
  links_bytes [] = []
  links_bytes (x ∷ xs) = link_bytes big x ++ links_bytes xs

  abbrev pub named_events : List LinkMessage → List LinkEvent
  named_events [] = []
  named_events (x ∷ xs) = named_event x ++ named_events xs

  abbrev pub AreLinks : List LinkMessage → Type 0
  AreLinks [] = Unit {0}
  AreLinks (x ∷ xs) = IsLinkMessage big attrs x × AreLinks xs

  -- one round of the loop over a link message, with `r` behind it
  walk_link :
      (fuel left : ℕ) (x : LinkMessage) (r : Bytes) (evs : List LinkEvent) (end : Ending)
      → IsLinkMessage big attrs x
      → 2 ^ 32 ≤ m
      → left < 2 ^ 32
      → length (link_bytes big x) ≤ left
      → walk_datagram big m attrs fuel r (left - length (link_bytes big x)) ≡ some (evs, end)
      → walk_datagram big m attrs (suc fuel) (link_bytes big x ++ r) left
        ≡ some (named_event x ++ evs, end)
  unfolding walk_datagram
  walk_link fuel left x r evs end f wide short fits later =
      let y = link_bytes big x in
      let l = length-link_bytes big attrs x f in
      let aligned = attrs_aligned big x.attrs in
      let a : align (length y) ≡ length y = omega (arith, l, aligned) in
      let z : length y + 0 ≡ length y = omega arith in
      let d : drop (length y) (y ++ r) ≡ r =
        ap (λ k. drop k (y ++ r)) (sym z) ∙ drop-append_tail y r (length y) 0 refl in
      let s : length y + (left - length y) ≡ left = omega (arith, fits) in
      let w : (left + 2 ^ 32 - length y) % 2 ^ 32 ≡ left - length y = omega (arith, fits, short) in
      let e₀ : field big (y ++ r) 0 4 ≡ some (length y) =
        rw (unfolded_link big x r, l) ((link_fields big m attrs x f r).0) in
      let e₁ : field big (y ++ r) 4 2 ≡ some (kind_of x.is_new) =
        rw (unfolded_link big x r) ((link_fields big m attrs x f r).1) in
      let e₂ : parse_link big m attrs (y ++ r) ≡ some (event_of big x) =
        rw (unfolded_link big x r) (parse_link-whole big m attrs x f r wide) in
      let b₁ : ltb left 16 ≡ false = ground (arith, l, fits) in
      let b₂ : (ltb (length y) 16 || ltb left (length y)) ≡ false = ground (arith, l, fits) in
      let k₁ : (kind_of x.is_new == nlmsg_done) ≡ false = ground arith in
      let k₂ : (kind_of x.is_new == nlmsg_error) ≡ false = ground arith in
      rw (b₁, e₀, b₂, e₁, k₁, k₂, e₂, a, d, w, later) refl

  -- the message that ends the dump
  walk_done :
      (fuel left : ℕ) (body r : Bytes)
      → IsOther big nlmsg_done body
      → 6 + length body ≤ left
      → walk_datagram big m attrs (suc fuel) (message_bytes big (other nlmsg_done body) ++ r) left
        ≡ some ([], finished)
  unfolding walk_datagram message_bytes
  walk_done fuel left body r f fits =
      let head = native_bytes big 4 (6 + length body) in
      let kind = native_bytes big 2 nlmsg_done in
      let e₀ : field big ((head ++ (kind ++ body)) ++ r) 0 4 ≡ some (6 + length body) =
        rw (append_assoc head (kind ++ body) r)
          (field_4 big (6 + length body) ((kind ++ body) ++ r) f.body_fits) in
      let e₁ : field big ((head ++ (kind ++ body)) ++ r) 4 2 ≡ some nlmsg_done =
        ap (λ p. field big p 4 2)
          (append_assoc head (kind ++ body) r ∙ ap (λ p. head ++ p) (append_assoc kind body r))
        ∙ field_skip big head (kind ++ (body ++ r)) 4 0 2
            (length-native_bytes big 4 (6 + length body))
        ∙ field_2 big nlmsg_done (body ++ r) (omega arith) in
      let b₁ : ltb left 16 ≡ false = ground (arith, f.body_length, fits) in
      let b₂ : (ltb (6 + length body) 16 || ltb left (6 + length body)) ≡ false =
        ground (arith, f.body_length, fits) in
      rw (b₁, e₀, b₂, e₁) refl

  -- link messages, with `q` behind them, on which the walk ends
  walk_links :
      (xs : List LinkMessage) (fuel rest : ℕ) (q : Bytes) (end : Ending)
      → ((f : ℕ) → walk_datagram big m attrs (suc f) q rest ≡ some ([], end))
      → 2 ^ 32 ≤ m
      → AreLinks xs
      → length xs < fuel
      → length (links_bytes xs) + rest < 2 ^ 32
      → walk_datagram big m attrs fuel (links_bytes xs ++ q) (length (links_bytes xs) + rest)
        ≡ some (named_events xs, end)
  walk_links xs zero rest q end ends wide f enough short = absurd (omega arith)
  walk_links [] (suc fuel) rest q end ends wide f enough short =
      let z : 0 + rest ≡ rest = omega arith in rw z (ends fuel)
  walk_links (x ∷ xs) (suc fuel) rest q end ends wide (g, f) enough short =
      let n = length-append (link_bytes big x) (links_bytes xs) in
      let left : length (links_bytes (x ∷ xs)) + rest - length (link_bytes big x)
          ≡ length (links_bytes xs) + rest =
        omega (arith, n) in
      rw (append_assoc (link_bytes big x) (links_bytes xs) q) (
        walk_link fuel (length (links_bytes (x ∷ xs)) + rest) x (links_bytes xs ++ q)
          (named_events xs) end g wide short (omega (arith, n))
          (rw left
            (walk_links xs fuel rest q end ends wide f (omega arith) (omega (arith, n, short)))))

  walk_end : (f : ℕ) → walk_datagram big m attrs (suc f) [] 0 ≡ some ([], more)
  unfolding walk_datagram
  walk_end f = refl

-- What the kernel sends for a dump: datagrams of link messages, perhaps with pauses, and a last one that ends
-- with NLMSG_DONE.
pub data Reply : Type 0 where
  pause : Reply
  part : List LinkMessage → Reply

pub record LastReply : Type 0 where
  pub links : List LinkMessage
  pub body : Bytes
  pub tail : Bytes

module _ (big : Bool) (m attrs : ℕ) where
  abbrev pub part_bytes : List LinkMessage → Bytes
  part_bytes xs = links_bytes big m attrs xs

  abbrev pub ending_bytes : LastReply → Bytes
  ending_bytes z = part_bytes z.links ++ (message_bytes big (other nlmsg_done z.body) ++ z.tail)

  abbrev pub received : List Reply → LastReply → List Received
  received [] z = datagram (ending_bytes z) ∷ []
  received (pause ∷ rs) z = again ∷ received rs z
  received (part xs ∷ rs) z = datagram (part_bytes xs) ∷ received rs z

  -- every link message of the replies
  abbrev pub links_of : List Reply → LastReply → List LinkMessage
  links_of [] z = z.links
  links_of (pause ∷ rs) z = links_of rs z
  links_of (part xs ∷ rs) z = xs ++ links_of rs z

  -- the fields fit, a datagram is below 2^32 bytes, and the fuel exceeds the messages of one
  abbrev pub IsPart : ℕ → List LinkMessage → Type 0
  IsPart fuel xs = AreLinks big m attrs xs × (length xs < fuel) × (length (part_bytes xs) < 2 ^ 32)

  abbrev pub AreReplies : ℕ → List Reply → Type 0
  AreReplies fuel [] = Unit {0}
  AreReplies fuel (pause ∷ rs) = AreReplies fuel rs
  AreReplies fuel (part xs ∷ rs) = IsPart fuel xs × AreReplies fuel rs

  pub record IsLastReply (fuel : ℕ) (z : LastReply) : Type 0 where
    pub are_links : AreLinks big m attrs z.links
    pub done : IsOther big nlmsg_done z.body
    pub enough : length z.links < fuel
    pub short : length (ending_bytes z) < 2 ^ 32

  named_events-append :
      (xs ys : List LinkMessage)
      → named_events big m attrs (xs ++ ys)
        ≡ named_events big m attrs xs ++ named_events big m attrs ys
  named_events-append [] ys = refl
  named_events-append (x ∷ xs) ys = rw (named_events-append xs ys) (
      sym (
        append_assoc (named_event big m attrs x) (named_events big m attrs xs)
          (named_events big m attrs ys)))

  walk_part :
      (fuel : ℕ) (xs : List LinkMessage)
      → 2 ^ 32 ≤ m
      → IsPart fuel xs
      → walk_datagram big m attrs fuel (part_bytes xs) (length (part_bytes xs))
        ≡ some (named_events big m attrs xs, more)
  walk_part fuel xs wide (f, enough, short) =
      let walked =
        walk_links big m attrs xs fuel 0 [] more (walk_end big m attrs) wide f enough
          (omega (arith, short)) in
      let z : length (part_bytes xs) ≡ length (part_bytes xs) + 0 = omega arith in
      ap (λ p. walk_datagram big m attrs fuel p (length (part_bytes xs)))
        (sym (append-nil (part_bytes xs)))
      ∙ ap (λ n. walk_datagram big m attrs fuel (part_bytes xs ++ []) n) z
      ∙ walked

  length-done :
      (body : Bytes) → length (message_bytes big (other nlmsg_done body)) ≡ 6 + length body
  unfolding message_bytes
  length-done body = omega (
    arith,
    length-append (native_bytes big 4 (6 + length body)) (native_bytes big 2 nlmsg_done ++ body),
    length-append (native_bytes big 2 nlmsg_done) body,
    length-native_bytes big 4 (6 + length body),
    length-native_bytes big 2 nlmsg_done,
  )

  walk_last :
      (fuel : ℕ) (z : LastReply)
      → 2 ^ 32 ≤ m
      → IsLastReply fuel z
      → walk_datagram big m attrs fuel (ending_bytes z) (length (ending_bytes z))
        ≡ some (named_events big m attrs z.links, finished)
  walk_last fuel z wide f =
      let done = message_bytes big (other nlmsg_done z.body) in
      let n = length-append (part_bytes z.links) (done ++ z.tail) in
      rw n (
        walk_links big m attrs z.links fuel (length (done ++ z.tail)) (done ++ z.tail) finished
          (λ k.
            walk_done big m attrs k (length (done ++ z.tail)) z.body z.tail f.done
              (omega (arith, length-append done z.tail, length-done z.body)))
          wide f.are_links f.enough (omega (arith, n, f.short)))

  collect-received :
      (fuel : ℕ) (rs : List Reply) (z : LastReply)
      → 2 ^ 32 ≤ m
      → AreReplies fuel rs
      → IsLastReply fuel z
      → collect big m attrs fuel (received rs z)
        ≡ some
            (record { ok = true; error = none; events = named_events big m attrs (links_of rs z) })
  unfolding collect
  collect-received fuel [] z wide f l = rw (walk_last fuel z wide l, collect) refl
  collect-received fuel (pause ∷ rs) z wide f l = collect-received fuel rs z wide f l
  collect-received fuel (part xs ∷ rs) z wide (g, f) l =
      rw
        (
          walk_part fuel xs wide g,
          collect,
          collect-received fuel rs z wide f l,
          named_events-append xs (links_of rs z),
        )
        refl

  -- A dump that the kernel answers ends with success once NLMSG_DONE arrives, and fires the callback for exactly the
  -- links of all datagrams that have a name, in order; pauses in between do not matter, and it reads inside of the
  -- datagrams only.
  pub dump-received :
      (fuel : ℕ) (rs : List Reply) (z : LastReply)
      → 2 ^ 32 ≤ m
      → AreReplies fuel rs
      → IsLastReply fuel z
      → dump big m attrs fuel sent (received rs z)
        ≡ some
            (record { ok = true; error = none; events = named_events big m attrs (links_of rs z) })
  unfolding dump
  dump-received fuel rs z wide f l = collect-received fuel rs z wide f l
