-- ===== src/Daemon/NetlinkAttrs.antt =====
-- The attributes of a link message, as the kernel lays them out, are read back (parse_link of src/reconcile.cpp).
use obserwrt.Prelude.{
  ℕ, zero, suc, ◌+◌, ◌-◌, ◌%◌, ◌^◌, ◌≤◌, ◌<◌, ◌≡◌, refl, sym, ap, ◌∙◌, inl, inr, Bool, false, ◌&&◌,
  ◌||◌, some, List, [], ◌∷◌, ◌++◌, arith, ◌==◌, ltb, if◌then◌else◌, Bytes, length, take, drop,
  replicate, length-replicate, le_value-le_bytes, length-append, length-be_bytes, length-le_bytes,
  append_assoc, Bool-cases,
}
use native.Mathlib.Nat.{add-mod_right, mod-eq_of_lt}
use obserwrt.Flow.{native_bytes}
use obserwrt.Ipfix.Record.{be_value_2, be_value_4}
use obserwrt.Daemon.Netlink.{align, ifla_ifname, field, assigned_name, parse_attrs}

take-append_head : (xs ys : Bytes) (n : ℕ) → length xs ≡ n → take n (xs ++ ys) ≡ xs
take-append_head [] ys zero e = refl
take-append_head [] ys (suc n) e = absurd (omega arith)
take-append_head (x ∷ xs) ys zero e = absurd (omega arith)
take-append_head (x ∷ xs) ys (suc n) e = ap (◌∷◌ x) (take-append_head xs ys n (omega arith))

pub drop-append_tail :
    (xs ys : Bytes) (n off : ℕ) → length xs ≡ n → drop (n + off) (xs ++ ys) ≡ drop off ys
drop-append_tail [] ys zero off e = let z : 0 + off ≡ off = omega arith in rw z refl
drop-append_tail [] ys (suc n) off e = absurd (omega arith)
drop-append_tail (x ∷ xs) ys zero off e = absurd (omega arith)
drop-append_tail (x ∷ xs) ys (suc n) off e =
    let s : suc n + off ≡ suc (n + off) = omega arith in
    rw s (drop-append_tail xs ys n off (omega arith))

take-append_short : (n : ℕ) (xs ys : Bytes) → n ≤ length xs → take n (xs ++ ys) ≡ take n xs
take-append_short zero xs ys h = refl
take-append_short (suc n) [] ys h = absurd (omega arith)
take-append_short (suc n) (x ∷ xs) ys h = ap (◌∷◌ x) (take-append_short n xs ys (omega arith))

module _ (big : Bool) where
  pub length-native_bytes : (w n : ℕ) → length (native_bytes big w n) ≡ w
  unfolding native_bytes
  length-native_bytes w n = ground (arith, length-be_bytes w n, length-le_bytes w n)

  pub field_skip :
      (xs q : Bytes) (a off w : ℕ)
      → length xs ≡ a
      → field big (xs ++ q) (a + off) w ≡ field big q off w
  unfolding field
  field_skip xs q a off w e = ground (arith, e, length-append xs q, drop-append_tail xs q a off e)

  pub field_2 :
      (n : ℕ) (q : Bytes) → n < 2 ^ 16 → field big (native_bytes big 2 n ++ q) 0 2 ≡ some n
  unfolding field native_bytes
  field_2 n q h = ground (
    arith,
    length-append (native_bytes big 2 n) q,
    length-native_bytes 2 n,
    take-append_head (native_bytes big 2 n) q 2 (length-native_bytes 2 n),
    be_value_2 n h,
    le_value-le_bytes 2 n h,
  )

  pub field_4 :
      (n : ℕ) (q : Bytes) → n < 2 ^ 32 → field big (native_bytes big 4 n ++ q) 0 4 ≡ some n
  unfolding field native_bytes
  field_4 n q h = ground (
    arith,
    length-append (native_bytes big 4 n) q,
    length-native_bytes 4 n,
    take-append_head (native_bytes big 4 n) q 4 (length-native_bytes 4 n),
    be_value_4 n h,
    le_value-le_bytes 4 n h,
  )

-- an attribute, and its layout
pub record Attr : Type 0 where
  pub type : ℕ
  pub payload : Bytes

module _ (big : Bool) where
  abbrev pub attr_length : Attr → ℕ
  attr_length a = 4 + length a.payload

  unfoldable pub attr_bytes : Attr → Bytes
  attr_bytes a =
      native_bytes big 2 (attr_length a)
      ++ (native_bytes big 2 a.type
          ++ (a.payload ++ replicate (align (attr_length a) - attr_length a) 0))

  abbrev pub attrs_bytes : List Attr → Bytes
  attrs_bytes [] = []
  attrs_bytes (a ∷ more) = attr_bytes a ++ attrs_bytes more

  pub record IsAttr (a : Attr) : Type 0 where
    pub type_fits : a.type < 2 ^ 16
    pub length_fits : attr_length a < 2 ^ 16

  abbrev pub AreAttrs : List Attr → Type 0
  AreAttrs [] = Unit {0}
  AreAttrs (a ∷ more) = IsAttr a × AreAttrs more

  -- the name that the attributes give: the last one's, without its final zero
  abbrev pub named_by : Attr → Bytes → Bytes
  named_by a name =
      if a.type == ifla_ifname && ltb 0 (length a.payload)
      then take (length a.payload - 1) a.payload
      else name

  abbrev pub name_in : List Attr → Bytes → Bytes
  name_in [] name = name
  name_in (a ∷ more) name = name_in more (named_by a name)

  pub length-attr_bytes : (a : Attr) → length (attr_bytes a) ≡ align (attr_length a)
  unfolding attr_bytes
  length-attr_bytes a =
      let pad = align (attr_length a) - attr_length a in
      omega (
        arith,
        length-append (native_bytes big 2 (attr_length a))
            (native_bytes big 2 a.type ++ (a.payload ++ replicate pad 0)),
        length-append (native_bytes big 2 a.type) (a.payload ++ replicate pad 0),
        length-append a.payload (replicate pad 0),
        length-native_bytes big 2 (attr_length a),
        length-native_bytes big 2 a.type,
        length-replicate {A = ℕ} pad 0,
      )

  -- the attribute in front of what follows it
  unfolded_attr :
      (a : Attr) (q : Bytes)
      → attr_bytes a ++ q
        ≡ native_bytes big 2 (attr_length a)
          ++ (native_bytes big 2 a.type
              ++ (a.payload ++ (replicate (align (attr_length a) - attr_length a) 0 ++ q)))
  unfolding attr_bytes
  unfolded_attr a q =
      let n = native_bytes big 2 (attr_length a) in
      let y = native_bytes big 2 a.type in
      let z = replicate (align (attr_length a) - attr_length a) 0 in
      append_assoc n (y ++ (a.payload ++ z)) q
      ∙ ap (λ r. n ++ r)
          (append_assoc y (a.payload ++ z) q ∙ ap (λ r. y ++ r) (append_assoc a.payload z q))

  attr_fields :
      (a : Attr) (q : Bytes)
      → IsAttr a
      → (field big (attr_bytes a ++ q) 0 2 ≡ some (attr_length a))
        × (field big (attr_bytes a ++ q) 2 2 ≡ some a.type)
        × (assigned_name (attr_bytes a ++ q) (attr_length a)
            ≡ some (take (length a.payload - 1) a.payload))
        × (drop (align (attr_length a)) (attr_bytes a ++ q) ≡ q)
  unfolding assigned_name
  attr_fields a q f =
      let n = native_bytes big 2 (attr_length a) in
      let y = native_bytes big 2 a.type in
      let r = a.payload ++ (replicate (align (attr_length a) - attr_length a) 0 ++ q) in
      let behind : drop 4 (n ++ (y ++ r)) ≡ r =
        drop-append_tail n (y ++ r) 2 2 (length-native_bytes big 2 (attr_length a))
        ∙ drop-append_tail y r 2 0 (length-native_bytes big 2 a.type) in
      let short =
        take-append_short (length a.payload - 1) a.payload
          (replicate (align (attr_length a) - attr_length a) 0 ++ q) (omega arith) in
      let z : align (attr_length a) + 0 ≡ align (attr_length a) = omega arith in
      (
        rw (unfolded_attr a q) (field_2 big (attr_length a) (y ++ r) f.length_fits),
        rw (unfolded_attr a q) (
            field_skip big n (y ++ r) 2 0 2 (length-native_bytes big 2 (attr_length a))
            ∙ field_2 big a.type r f.type_fits),
        ground (
          arith,
          unfolded_attr a q,
          behind,
          short,
          length-append (attr_bytes a) q,
          length-attr_bytes a,
        ),
        ap (λ k. drop k (attr_bytes a ++ q)) (sym z)
            ∙ drop-append_tail (attr_bytes a) q (align (attr_length a)) 0 (length-attr_bytes a),
      )

  pub wrapped : (l s m : ℕ) → l < m → (s + l + m - s) % m ≡ l
  wrapped l s m h =
      let e : s + l + m - s ≡ l + m = omega arith in rw e (add-mod_right l m ∙ mod-eq_of_lt h)

  -- one round of the loop
  parse_attrs_step :
      (m fuel : ℕ) (p : Bytes) (len l ty : ℕ) (name found : Bytes)
      → ltb len 4 ≡ false
      → field big p 0 2 ≡ some l
      → (ltb l 4 || ltb len l) ≡ false
      → field big p 2 2 ≡ some ty
      → assigned_name p l ≡ some found
      → parse_attrs big m (suc fuel) p len name
        ≡ parse_attrs big m fuel
            (drop (align l) p)
            ((len + m - align l) % m)
            (if ty == ifla_ifname && ltb 0 (l - 4) then found else name)
  unfolding parse_attrs
  parse_attrs_step m fuel p len l ty name found e₁ e₂ e₃ e₄ e₅ =
      elim (Bool-cases (ty == ifla_ifname && ltb 0 (l - 4))) [
        | inl is_name ↦ rw (e₁, e₂, e₃, e₄, is_name, e₅) refl
        | inr other ↦ rw (e₁, e₂, e₃, e₄, other) refl
      ]

  pub parse_attrs-attrs_bytes :
      (m fuel : ℕ) (more : List Attr) (q name : Bytes)
      → AreAttrs more
      → length more < fuel
      → length (attrs_bytes more) < m
      → parse_attrs big m fuel (attrs_bytes more ++ q) (length (attrs_bytes more)) name
        ≡ some (name_in more name)
  unfolding parse_attrs
  parse_attrs-attrs_bytes m zero more q name f enough short = absurd (omega arith)
  parse_attrs-attrs_bytes m (suc fuel) [] q name f enough short = refl
  parse_attrs-attrs_bytes m (suc fuel) (a ∷ more) q name f enough short =
      let r = attrs_bytes more ++ q in
      let split : attrs_bytes (a ∷ more) ++ q ≡ attr_bytes a ++ r =
        append_assoc (attr_bytes a) (attrs_bytes more) q in
      let long : length (attrs_bytes (a ∷ more))
          ≡ align (attr_length a) + length (attrs_bytes more) =
        length-append (attr_bytes a) (attrs_bytes more) ∙ rw (length-attr_bytes a) refl in
      let (f0, f2, nm, dr) = attr_fields a r f.0 in
      let w : (length (attrs_bytes (a ∷ more)) + m - align (attr_length a)) % m
          ≡ length (attrs_bytes more) =
        rw long (
          wrapped (length (attrs_bytes more)) (align (attr_length a)) m
            (omega (arith, short, long))) in
      let size : 4 + length a.payload - 4 ≡ length a.payload = omega arith in
      ap (λ p. parse_attrs big m (suc fuel) p (length (attrs_bytes (a ∷ more))) name) split
      ∙ parse_attrs_step m fuel (attr_bytes a ++ r) (length (attrs_bytes (a ∷ more)))
          (attr_length a) a.type name _ (ground (arith, long)) f0 (ground (arith, long)) f2 nm
      ∙ rw (dr, w, size)
          (parse_attrs-attrs_bytes m fuel more q (named_by a name) f.1 (omega arith)
            (omega (arith, short, long)))
