-- ===== src/Flow/Layout.antt =====
-- The packed image of a flow key (bpf/obserwrt-flow.h) against the equality and the hash of
-- src/flow.hpp.
use obserwrt.Prelude.{
  ℕ, ◌^◌, ◌<◌, ◌≡◌, refl, Bool, true, false, ◌&&◌, ◌++◌, arith, ◌==◌, length, bytes_eq, le_bytes,
  be_bytes, length-le_bytes, length-be_bytes, length-append, bytes_eq-append, sym, ◌∙◌, Bytes, ◌⊎◌,
  inl, inr, ap,
}
use obserwrt.Flow.{
  FlowKey, IsFlowKey, key_eq, key_eq_iff, native_bytes, key_bytes, key_size, key_hash,
}

length-native_bytes : (big : Bool) (w n : ℕ) → length (native_bytes big w n) ≡ w
unfolding native_bytes
length-native_bytes true w n = length-be_bytes w n
length-native_bytes false w n = length-le_bytes w n

native_bytes_4 :
    (big : Bool) (m n : ℕ)
    → m < 256 ^ 4
    → n < 256 ^ 4
    → bytes_eq (native_bytes big 4 m) (native_bytes big 4 n) ≡ (m == n)
unfolding native_bytes be_bytes le_bytes bytes_eq
native_bytes_4 true m n hm hn = ground arith
native_bytes_4 false m n hm hn = ground arith

native_bytes_2 :
    (big : Bool) (m n : ℕ)
    → m < 256 ^ 2
    → n < 256 ^ 2
    → bytes_eq (native_bytes big 2 m) (native_bytes big 2 n) ≡ (m == n)
unfolding native_bytes be_bytes le_bytes bytes_eq
native_bytes_2 true m n hm hn = ground arith
native_bytes_2 false m n hm hn = ground arith

-- The image of a well-formed key has exactly 46 bytes, in either byte order.
length-key_bytes : (big : Bool) (k : FlowKey) → IsFlowKey k → length (key_bytes big k) ≡ 46
unfolding key_bytes
length-key_bytes big k h = omega (
  arith,
  length-append {0} (native_bytes big 4 k.ifindex),
  length-append {0} k.src,
  length-append {0} k.dst,
  length-append {0} (native_bytes big 2 k.sport),
  length-append {0} (native_bytes big 2 k.dport),
  length-native_bytes big 4 k.ifindex,
  length-native_bytes big 2 k.sport,
  length-native_bytes big 2 k.dport,
)

native_bytes-append_4 :
    (big : Bool) (m n : ℕ) (us vs : Bytes)
    → m < 256 ^ 4
    → n < 256 ^ 4
    → bytes_eq (native_bytes big 4 m ++ us) (native_bytes big 4 n ++ vs)
      ≡ (m == n && bytes_eq us vs)
native_bytes-append_4 big m n us vs hm hn =
    bytes_eq-append _ _ us vs (length-native_bytes big 4 m ∙ sym (length-native_bytes big 4 n))
    ∙ rw (native_bytes_4 big m n hm hn) refl

native_bytes-append_2 :
    (big : Bool) (m n : ℕ) (us vs : Bytes)
    → m < 256 ^ 2
    → n < 256 ^ 2
    → bytes_eq (native_bytes big 2 m ++ us) (native_bytes big 2 n ++ vs)
      ≡ (m == n && bytes_eq us vs)
native_bytes-append_2 big m n us vs hm hn =
    bytes_eq-append _ _ us vs (length-native_bytes big 2 m ∙ sym (length-native_bytes big 2 n))
    ∙ rw (native_bytes_2 big m n hm hn) refl

and_assoc : (a b c : Bool) → ((a && b) && c) ≡ (a && (b && c))
and_assoc true b c = refl
and_assoc false b c = refl

and_true : (b : Bool) → (b && true) ≡ b
and_true true = refl
and_true false = refl

bytes_eq-key_bytes :
    (big : Bool) (a b : FlowKey)
    → IsFlowKey a
    → IsFlowKey b
    → bytes_eq (key_bytes big a) (key_bytes big b) ≡ key_eq a b
unfolding key_bytes key_eq bytes_eq
bytes_eq-key_bytes big a b ha hb =
    rw
      (
        native_bytes-append_4 big a.ifindex b.ifindex _ _ ha.ifindex_fits hb.ifindex_fits,
        bytes_eq-append a.src b.src _ _ (ha.src_length ∙ sym hb.src_length),
        bytes_eq-append a.dst b.dst _ _ (ha.dst_length ∙ sym hb.dst_length),
        native_bytes-append_2 big a.sport b.sport _ _ ha.sport_fits hb.sport_fits,
        native_bytes-append_2 big a.dport b.dport _ _ ha.dport_fits hb.dport_fits,
      )
      (simp (and_true, and_assoc) refl)

false-or {ℓ} : {P : Type ℓ} (b : Bool) → (b ≡ true → P) → (b ≡ false) ⊎ P
false-or true f = inr (f refl)
false-or false f = inl refl

-- For well-formed keys, in either byte order: the size the hash functor passes is the length of
-- the key's packed image; comparing the packed images byte by byte is the equality of the fields;
-- and two keys either differ or have the same hash, whatever function of the image hashes them.
pub key_bytes_lem :
    (xxh3 : Bytes → ℕ → ℕ) (big : Bool) (a b : FlowKey)
    → IsFlowKey a
    → IsFlowKey b
    → (length (key_bytes big a) ≡ key_size)
      × (bytes_eq (key_bytes big a) (key_bytes big b) ≡ key_eq a b)
      × ((key_eq a b ≡ false) ⊎ (key_hash xxh3 big a ≡ key_hash xxh3 big b))
key_bytes_lem xxh3 big a b ha hb = (
  length-key_bytes big a ha,
  bytes_eq-key_bytes big a b ha hb,
  false-or (key_eq a b) (λ e. ap (key_hash xxh3 big) ((key_eq_iff a b).0 e)),
)
