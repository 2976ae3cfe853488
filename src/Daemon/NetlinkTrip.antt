-- ===== src/Daemon/NetlinkTrip.antt =====
-- Link messages, as the kernel lays them out, are read back (src/reconcile.cpp).
use obserwrt.Prelude.{
  ℕ, zero, suc, ◌+◌, ◌-◌, ◌%◌, ◌^◌, ◌≤◌, ◌<◌, ◌≡◌, refl, sym, ap, ◌∙◌, Bool, true, false, ◌||◌,
  some, List, [], ◌∷◌, ◌++◌, arith, ◌==◌, ltb, if◌then◌else◌, Bytes, length, drop, length-append,
  append_assoc,
}
use obserwrt.Flow.{native_bytes}
use obserwrt.Config.{is_empty}
use obserwrt.Daemon.{LinkEvent}
use obserwrt.Daemon.Netlink.{
  align, rtm_newlink, rtm_dellink, field, parse_link, events_at, dispatch,
}
use obserwrt.Daemon.NetlinkAttrs.{
  drop-append_tail, length-native_bytes, field_skip, field_2, field_4, Attr, attrs_bytes,
  attr_bytes, AreAttrs, name_in, length-attr_bytes, wrapped, parse_attrs-attrs_bytes,
}

-- a link message: `control` is what stands between the type and `ifi_type`, and `change` is `ifi_change`
pub record LinkMessage : Type 0 where
  pub is_new : Bool
  pub control : Bytes
  pub ifi_type : ℕ
  pub ifi_index : ℕ
  pub ifi_flags : ℕ
  pub change : Bytes
  pub attrs : List Attr

-- any other message: its type, and what stands behind it
pub data Message : Type 0 where
  link : LinkMessage → Message
  other : ℕ → Bytes → Message

abbrev pub kind_of : Bool → ℕ
kind_of is_new = if is_new then rtm_newlink else rtm_dellink

module _ (big : Bool) where
  unfoldable pub link_bytes : LinkMessage → Bytes
  link_bytes x =
      native_bytes big 4 (32 + length (attrs_bytes big x.attrs))
      ++ (native_bytes big 2 (kind_of x.is_new)
          ++ (x.control
              ++ (native_bytes big 2 x.ifi_type
                  ++ (native_bytes big 4 x.ifi_index
                      ++ (native_bytes big 4 x.ifi_flags
                          ++ (x.change ++ attrs_bytes big x.attrs))))))

  unfoldable pub message_bytes : Message → Bytes
  unfolding link_bytes
  message_bytes (link x) = link_bytes x
  message_bytes (other ty body) =
      native_bytes big 4 (6 + length body) ++ (native_bytes big 2 ty ++ body)

  -- the fields fit the structs, and a message ends at a multiple of four
  pub record IsLinkMessage (attrs : ℕ) (x : LinkMessage) : Type 0 where
    pub control_length : length x.control ≡ 12
    pub change_length : length x.change ≡ 4
    pub type_fits : x.ifi_type < 2 ^ 16
    pub index_fits : x.ifi_index < 2 ^ 32
    pub flags_fit : x.ifi_flags < 2 ^ 32
    pub length_fits : 32 + length (attrs_bytes big x.attrs) < 2 ^ 32
    pub attrs_fit : AreAttrs big x.attrs
    pub attrs_enough : length x.attrs < attrs

  pub record IsOther (ty : ℕ) (body : Bytes) : Type 0 where
    pub type_fits : ty < 2 ^ 16
    pub other_type : (ty == rtm_newlink || ty == rtm_dellink) ≡ false
    pub body_length : 10 ≤ length body
    pub body_aligned : (6 + length body) % 4 ≡ 0
    pub body_fits : 6 + length body < 2 ^ 32

  abbrev pub AreMessages : ℕ → List Message → Type 0
  AreMessages attrs [] = Unit {0}
  AreMessages attrs (link x ∷ xs) = IsLinkMessage attrs x × AreMessages attrs xs
  AreMessages attrs (other ty body ∷ xs) = IsOther ty body × AreMessages attrs xs

  abbrev pub buffer : List Message → Bytes
  buffer [] = []
  buffer (x ∷ xs) = message_bytes x ++ buffer xs

  abbrev pub event_of : LinkMessage → LinkEvent
  event_of x = record {
    ifindex = x.ifi_index;
    ifname = name_in big x.attrs [];
    type = x.ifi_type;
    present = x.is_new;
    up = x.ifi_flags % 2 == 1;
  }

  -- the events that the messages stand for: those of links that have a name
  abbrev pub events_of : List Message → List LinkEvent
  events_of [] = []
  events_of (link x ∷ xs) =
      (if is_empty (name_in big x.attrs []) then [] else event_of x ∷ []) ++ events_of xs
  events_of (other ty body ∷ xs) = events_of xs

  pub attrs_aligned : (xs : List Attr) → length (attrs_bytes big xs) % 4 ≡ 0
  attrs_aligned [] = refl
  attrs_aligned (a ∷ xs) = omega (
    arith,
    attrs_aligned xs,
    length-append (attr_bytes big a) (attrs_bytes big xs),
    length-attr_bytes big a,
  )

  pub length-link_bytes :
      (attrs : ℕ) (x : LinkMessage)
      → IsLinkMessage attrs x
      → length (link_bytes x) ≡ 32 + length (attrs_bytes big x.attrs)
  unfolding link_bytes
  length-link_bytes attrs x f =
      omega
        (arith, length-append {A = ℕ}, length-native_bytes big, f.control_length, f.change_length)

  -- the link message in front of what follows it
  pub unfolded_link :
      (x : LinkMessage) (q : Bytes)
      → link_bytes x ++ q
        ≡ native_bytes big 4 (32 + length (attrs_bytes big x.attrs))
          ++ (native_bytes big 2 (kind_of x.is_new)
              ++ (x.control
                  ++ (native_bytes big 2 x.ifi_type
                      ++ (native_bytes big 4 x.ifi_index
                          ++ (native_bytes big 4 x.ifi_flags
                              ++ (x.change ++ (attrs_bytes big x.attrs ++ q)))))))
  unfolding link_bytes
  unfolded_link x q = simp (append_assoc)

  module _ (m attrs : ℕ) (x : LinkMessage) (f : IsLinkMessage attrs x) (q : Bytes) where
    abbrev flags_on : Bytes
    flags_on = native_bytes big 4 x.ifi_flags ++ (x.change ++ (attrs_bytes big x.attrs ++ q))

    abbrev index_on : Bytes
    index_on = native_bytes big 4 x.ifi_index ++ flags_on

    abbrev type_on : Bytes
    type_on = native_bytes big 2 x.ifi_type ++ index_on

    abbrev control_on : Bytes
    control_on = x.control ++ type_on

    abbrev kind_on : Bytes
    kind_on = native_bytes big 2 (kind_of x.is_new) ++ control_on

    abbrev whole : Bytes
    whole = native_bytes big 4 (32 + length (attrs_bytes big x.attrs)) ++ kind_on

    kind_fits : kind_of x.is_new < 2 ^ 16
    kind_fits = ground arith

    -- past the length, the type, the rest of the header, and the type of the device
    to_kind : (off w : ℕ) → field big whole (4 + off) w ≡ field big kind_on off w
    to_kind off w =
        field_skip big _ kind_on 4 off w
          (length-native_bytes big 4 (32 + length (attrs_bytes big x.attrs)))

    to_type : (off w : ℕ) → field big whole (4 + (2 + (12 + off))) w ≡ field big type_on off w
    to_type off w =
        to_kind (2 + (12 + off)) w
        ∙ field_skip big _ control_on 2 (12 + off) w (length-native_bytes big 2 (kind_of x.is_new))
        ∙ field_skip big x.control type_on 12 off w f.control_length

    to_index :
        (off w : ℕ) → field big whole (4 + (2 + (12 + (2 + off)))) w ≡ field big index_on off w
    to_index off w =
        to_type (2 + off) w
        ∙ field_skip big _ index_on 2 off w (length-native_bytes big 2 x.ifi_type)

    pub link_fields :
        (field big whole 0 4 ≡ some (32 + length (attrs_bytes big x.attrs)))
        × (field big whole 4 2 ≡ some (kind_of x.is_new))
        × (field big whole 18 2 ≡ some x.ifi_type)
        × (field big whole 20 4 ≡ some x.ifi_index)
        × (field big whole 24 4 ≡ some x.ifi_flags)
        × (drop 32 whole ≡ attrs_bytes big x.attrs ++ q)
    link_fields = (
      field_4 big _ kind_on f.length_fits,
      to_kind 0 2 ∙ field_2 big _ control_on kind_fits,
      to_type 0 2 ∙ field_2 big _ index_on f.type_fits,
      to_index 0 4 ∙ field_4 big _ flags_on f.index_fits,
      to_index 4 4
          ∙ field_skip big _ flags_on 4 0 4 (length-native_bytes big 4 x.ifi_index)
          ∙ field_4 big _ (x.change ++ (attrs_bytes big x.attrs ++ q)) f.flags_fit,
      drop-append_tail _ kind_on 4 28
            (length-native_bytes big 4 (32 + length (attrs_bytes big x.attrs)))
          ∙ drop-append_tail _ control_on 2 26 (length-native_bytes big 2 (kind_of x.is_new))
          ∙ drop-append_tail x.control type_on 12 14 f.control_length
          ∙ drop-append_tail _ index_on 2 12 (length-native_bytes big 2 x.ifi_type)
          ∙ drop-append_tail _ flags_on 4 8 (length-native_bytes big 4 x.ifi_index)
          ∙ drop-append_tail _ (x.change ++ (attrs_bytes big x.attrs ++ q)) 4 4
              (length-native_bytes big 4 x.ifi_flags)
          ∙ drop-append_tail x.change (attrs_bytes big x.attrs ++ q) 4 0 f.change_length,
    )

    pub parse_link-whole : 2 ^ 32 ≤ m → parse_link big m attrs whole ≡ some (event_of x)
    unfolding parse_link
    parse_link-whole wide =
        let (e₀, e₁, e₂, e₃, e₄, e₅) = link_fields in
        let w =
          wrapped big (length (attrs_bytes big x.attrs)) 32 m
            (omega (arith, f.length_fits, wide)) in
        let names =
          parse_attrs-attrs_bytes big m attrs x.attrs q [] f.attrs_fit f.attrs_enough
            (omega (arith, f.length_fits, wide)) in
        let k : (kind_of x.is_new == rtm_newlink) ≡ x.is_new = ground arith in
        rw (e₀, e₁, e₂, e₃, e₄, e₅, w, names, k) refl

    events_at-whole :
        2 ^ 32 ≤ m
        → events_at big m attrs whole
          ≡ some (if is_empty (name_in big x.attrs []) then [] else event_of x ∷ [])
    unfolding events_at
    events_at-whole wide =
        let (e₀, e₁, e₂, e₃, e₄, e₅) = link_fields in
        let k : (kind_of x.is_new == rtm_newlink || kind_of x.is_new == rtm_dellink) ≡ true =
          ground arith in
        rw (e₁, k, parse_link-whole wide) refl

  dispatch_end : (m attrs fuel : ℕ) (q : Bytes) → dispatch big m attrs (suc fuel) q 0 ≡ some []
  unfolding dispatch
  dispatch_end m attrs fuel q = refl

  other_silent :
      (m attrs ty : ℕ) (body r : Bytes)
      → IsOther ty body
      → events_at big m attrs
          ((native_bytes big 4 (6 + length body) ++ (native_bytes big 2 ty ++ body)) ++ r)
        ≡ some []
  unfolding events_at
  other_silent m attrs ty body r f =
      let head = native_bytes big 4 (6 + length body) in
      let kind = native_bytes big 2 ty in
      let t : field big ((head ++ (kind ++ body)) ++ r) 4 2 ≡ some ty =
        ap (λ p. field big p 4 2)
          (append_assoc head (kind ++ body) r ∙ ap (λ p. head ++ p) (append_assoc kind body r))
        ∙ field_skip big head (kind ++ (body ++ r)) 4 0 2
            (length-native_bytes big 4 (6 + length body))
        ∙ field_2 big ty (body ++ r) f.type_fits in
      rw (t, f.other_type) refl

  -- one round of the loop, over a message `y` with `r` behind it
  dispatch_round :
      (m attrs fuel : ℕ) (y r : Bytes) (left : ℕ) (evs rest : List LinkEvent)
      → field big (y ++ r) 0 4 ≡ some (length y)
      → 16 ≤ length y
      → length y % 4 ≡ 0
      → left < m
      → length y ≤ left
      → events_at big m attrs (y ++ r) ≡ some evs
      → dispatch big m attrs fuel r (left - length y) ≡ some rest
      → dispatch big m attrs (suc fuel) (y ++ r) left ≡ some (evs ++ rest)
  unfolding dispatch
  dispatch_round m attrs fuel y r left evs rest e₀ long aligned short fits e₁ later =
      let a : align (length y) ≡ length y = omega (arith, aligned) in
      let z : length y + 0 ≡ length y = omega arith in
      let d : drop (length y) (y ++ r) ≡ r =
        ap (λ k. drop k (y ++ r)) (sym z) ∙ drop-append_tail y r (length y) 0 refl in
      let s : length y + (left - length y) ≡ left = omega (arith, fits) in
      let w : (left + m - length y) % m ≡ left - length y =
        ap (λ k. (k + m - length y) % m) (sym s)
        ∙ wrapped big (left - length y) (length y) m (omega (arith, short)) in
      let b₁ : ltb left 16 ≡ false = ground (arith, long, fits) in
      let b₂ : (ltb (length y) 16 || ltb left (length y)) ≡ false = ground (arith, long, fits) in
      rw (b₁, e₀, b₂, e₁, a, d, w, later) refl

  -- The events that `dispatch` hands to the callback are those of the link messages in the buffer that have a
  -- name, in order, whatever stands behind the messages, and it reads inside of the buffer only; the
  -- messages are laid out as the kernel does, each aligned, in either byte order.
  pub dispatch-buffer :
      (m attrs fuel : ℕ) (xs : List Message) (q : Bytes)
      → 2 ^ 32 ≤ m
      → AreMessages attrs xs
      → length xs < fuel
      → length (buffer xs) < m
      → dispatch big m attrs fuel (buffer xs ++ q) (length (buffer xs)) ≡ some (events_of xs)
  unfolding message_bytes
  dispatch-buffer m attrs zero xs q wide f enough short = absurd (omega arith)
  dispatch-buffer m attrs (suc fuel) [] q wide f enough short = dispatch_end m attrs fuel q
  dispatch-buffer m attrs (suc fuel) (link x ∷ xs) q wide f enough short =
      let y = link_bytes x in
      let r = buffer xs ++ q in
      let l = length-link_bytes attrs x f.0 in
      let n = length-append y (buffer xs) in
      let later =
        dispatch-buffer m attrs fuel xs q wide f.1 (omega arith) (omega (arith, short, n)) in
      let left : length (y ++ buffer xs) - length y ≡ length (buffer xs) = omega (arith, n) in
      ap (λ p. dispatch big m attrs (suc fuel) p (length (y ++ buffer xs)))
        (append_assoc y (buffer xs) q)
      ∙ dispatch_round m attrs fuel y r (length (y ++ buffer xs)) _ (events_of xs)
          (rw (unfolded_link x r, l) ((link_fields m attrs x f.0 r).0)) (omega (arith, l))
          (omega (arith, l, attrs_aligned x.attrs)) short (omega (arith, n))
          (rw (unfolded_link x r) (events_at-whole m attrs x f.0 r wide)) (rw left later)
  dispatch-buffer m attrs (suc fuel) (other ty body ∷ xs) q wide f enough short =
      let head = native_bytes big 4 (6 + length body) in
      let kind = native_bytes big 2 ty in
      let y = head ++ (kind ++ body) in
      let r = buffer xs ++ q in
      let l : length y ≡ 6 + length body = omega (
        arith,
        length-append head (kind ++ body),
        length-append kind body,
        length-native_bytes big 4 (6 + length body),
        length-native_bytes big 2 ty,
      ) in
      let n = length-append y (buffer xs) in
      let later =
        dispatch-buffer m attrs fuel xs q wide f.1 (omega arith) (omega (arith, short, n)) in
      let left : length (y ++ buffer xs) - length y ≡ length (buffer xs) = omega (arith, n) in
      ap (λ p. dispatch big m attrs (suc fuel) p (length (y ++ buffer xs)))
        (append_assoc y (buffer xs) q)
      ∙ dispatch_round m attrs fuel y r (length (y ++ buffer xs)) [] (events_of xs)
          (rw (append_assoc head (kind ++ body) r, l)
            (field_4 big (6 + length body) ((kind ++ body) ++ r) f.0.body_fits))
          (omega (arith, l, f.0.body_length)) (omega (arith, l, f.0.body_aligned)) short
          (omega (arith, n)) (other_silent m attrs ty body r f.0) (rw left later)
