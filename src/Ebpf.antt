-- ===== src/Ebpf.antt =====
-- The eBPF programs (bpf/obserwrt-bpf.c, bpf/obserwrt-drops.c): packets, and reads of their bytes.
-- A packet's linear data is a list of bytes, and a pointer into it is an offset.
pub mod Parse
pub mod Bounds
pub mod Observe
pub mod Keys
pub mod Counters
pub mod Drops
pub mod DropTuples
use obserwrt.Prelude.{
  ℕ, zero, suc, ◌+◌, ◌*◌, ◌<◌, ◌≤◌, ◌≡◌, refl, ◌⊎◌, Bool, true, false, Option, none, some, List, [],
  ◌∷◌, arith, ltb, ltb→lt, if◌then◌else◌, length, get_elem?, take, drop, length-take, length-drop,
  Bytes, Bool-cases, inl, inr,
}

-- the fields of `struct __sk_buff` that the programs read
pub record Skb : Type 0 where
  pub ifindex : ℕ
  pub len : ℕ
  pub gso_segs : ℕ
  pub vlan_present : Bool
  pub vlan_tci : ℕ
  pub bytes : Bytes

-- How a step of a program ends: with a value, by returning from the program early, or with a
-- read outside of the packet, which the kernel's verifier does not let happen.
pub data Outcome {ℓ} (A : Type ℓ) : Type ℓ where
  ok : A → Outcome A
  leave fault : Outcome A

infixl 5 ◌>>=◌ ◌>>◌
abbrev pub ◌>>=◌ {ℓ κ} : {A : Type ℓ} {B : Type κ} → Outcome A → (A → Outcome B) → Outcome B
ok a >>= f = f a
leave >>= f = leave
fault >>= f = fault

abbrev pub ◌>>◌ {ℓ} : {B : Type ℓ} → Outcome (Unit {0}) → Outcome B → Outcome B
m >> k = m >>= λ _. k

-- `if (data + n > data_end) return TC_ACT_OK;`
unfoldable pub need : Bytes → ℕ → Outcome (Unit {0})
need p n = if ltb (length p) n then leave else ok tt

-- the byte at an offset
unfoldable pub byte : Bytes → ℕ → Outcome ℕ
byte p i = elim (get_elem? p i) [ none ↦ fault | some b ↦ ok b ]

-- `bpf_ntohs(*(__u16 *)(data + i))`
unfoldable pub word : Bytes → ℕ → Outcome ℕ
unfolding byte
word p i = do hi ← byte p i; lo ← byte p (i + 1); ok (hi * 256 + lo)

-- `memcpy` of n bytes from an offset
unfoldable pub block : Bytes → ℕ → ℕ → Outcome Bytes
block p i n = if ltb (length p) (i + n) then fault else ok (take n (drop i p))

-- A step reads inside of the packet only, and a value that it ends with satisfies `P`.
abbrev pub Ensures : {A : Type 0} → (A → Type 0) → Outcome A → Type 0
Ensures P (ok a) = P a
Ensures P leave = Unit {0}
Ensures P fault = ⊥

abbrev pub AreBytes : Bytes → Type 0
AreBytes [] = Unit {0}
AreBytes (b ∷ bs) = (b < 256) × AreBytes bs

pub bind-Ensures :
    {A B : Type 0} (P : A → Type 0) (Q : B → Type 0) (m : Outcome A) (f : A → Outcome B)
    → Ensures P m
    → ((a : A) → P a → Ensures Q (f a))
    → Ensures Q (m >>= f)
bind-Ensures P Q (ok a) f h k = k a h
bind-Ensures P Q leave f h k = tt
bind-Ensures P Q fault f h k = absurd h

pub Ensures-cases :
    {A : Type 0} (P : A → Type 0) (m : Outcome A)
    → Ensures P m
    → ((a : A) × (m ≡ ok a) × P a) ⊎ (m ≡ leave)
Ensures-cases P (ok a) h = inl (a, refl, h)
Ensures-cases P leave h = inr refl
Ensures-cases P fault h = absurd h

pub need-Ensures : (p : Bytes) (n : ℕ) → Ensures (λ u. n ≤ length p) (need p n)
unfolding need
need-Ensures p n = elim (Bool-cases (ltb (length p) n)) [
  | inl e ↦ rw e tt
  | inr e ↦ rw e (ground arith)
]

pub byte-Ensures :
    (p : Bytes) (i : ℕ) → AreBytes p → i < length p → Ensures (λ b. b < 256) (byte p i)
unfolding byte
byte-Ensures [] i a h = absurd (omega arith)
byte-Ensures (b ∷ p) zero a h = a.0
byte-Ensures (b ∷ p) (suc i) a h = byte-Ensures p i a.1 (omega arith)

pub word-Ensures :
    (p : Bytes) (i : ℕ) → AreBytes p → i + 1 < length p → Ensures (λ w. w < 65536) (word p i)
unfolding word
word-Ensures p i a h =
    bind-Ensures (λ b. b < 256) (λ w. w < 65536) (byte p i) _ (byte-Ensures p i a (omega arith))
      λ hi h₁.
        bind-Ensures (λ b. b < 256) (λ w. w < 65536) (byte p (i + 1)) _ (byte-Ensures p (i + 1) a h)
          λ lo h₂. omega arith

pub block-Ensures :
    (p : Bytes) (i n : ℕ) → i + n ≤ length p → Ensures (λ bs. length bs ≡ n) (block p i n)
unfolding block
block-Ensures p i n h = ground (arith, length-take n (drop i p), length-drop i p)
