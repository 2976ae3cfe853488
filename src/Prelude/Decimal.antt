-- ===== src/Prelude/Decimal.antt =====
-- Decimal numbers: std::to_string and std::from_chars on unsigned 64-bit integers.
use Prim.Native.Nat.{ℕ, zero, suc, ◌+◌, ◌-◌, ◌*◌, ◌/◌, ◌%◌, ◌^◌, ◌<◌}
use mathlib.Core.Path.{◌≡◌, refl, ◌∙◌}
use mathlib.Core.Logic.{inl, inr}
use mathlib.Core.Bool.{Bool, true, ◌&&◌}
use mathlib.Core.Option.{Option, none, some}
use mathlib.Core.List.{[], ◌∷◌}
use native.Mathlib.Omega.{arith}
use obserwrt.Prelude.Tests.{if◌then◌else◌, ltb, leb, Bool-cases}
use obserwrt.Prelude.Octets.{Bytes}

-- the digits of n in front of `acc`; fuel n + 1 is enough
to_digits : ℕ → ℕ → Bytes → Bytes
to_digits zero n acc = acc
to_digits (suc f) n acc =
    let rest = to_digits f (n / 10) ((b'0' + n % 10) ∷ acc) in
    if ltb n 10 then (b'0' + n) ∷ acc else rest

unfoldable pub to_string : ℕ → Bytes
unfolding to_digits
to_string n = to_digits (suc n) n []

is_digit : ℕ → Bool
is_digit c = leb b'0' c && leb c b'9'

-- the value of a text of digits behind the value `acc`
digits_value : ℕ → Bytes → Option ℕ
unfolding is_digit
digits_value acc [] = some acc
digits_value acc (c ∷ cs) =
    let rest = digits_value (acc * 10 + (c - b'0')) cs in if is_digit c then rest else none

below_u64 : Option ℕ → Option ℕ
below_u64 none = none
below_u64 (some n) = if ltb n (2 ^ 64) then some n else none

-- `from_chars(first, last, v)` with `ec == errc() && ptr == last`
unfoldable pub from_chars : Bytes → Option ℕ
unfolding digits_value below_u64
from_chars [] = none
from_chars (c ∷ cs) = below_u64 (digits_value 0 (c ∷ cs))

digits_value-to_digits :
    (f n : ℕ) (acc : Bytes) → n < f → digits_value 0 (to_digits f n acc) ≡ digits_value n acc
unfolding to_digits digits_value
digits_value-to_digits zero n acc h = absurd (omega arith)
digits_value-to_digits (suc f) n acc h = elim (Bool-cases (ltb n 10)) [
  | inl small ↦ rw small (ground arith)
  | inr big ↦
      rw big
        (digits_value-to_digits f (n / 10) ((b'0' + n % 10) ∷ acc) (ground arith) ∙ ground arith)
]

to_digits_cons :
    (f n c : ℕ) (acc : Bytes) → (d : ℕ) × (ds : Bytes) × (to_digits f n (c ∷ acc) ≡ d ∷ ds)
unfolding to_digits
to_digits_cons zero n c acc = (c, acc, refl)
to_digits_cons (suc f) n c acc = elim (Bool-cases (ltb n 10)) [
  | inl small ↦ (b'0' + n, c ∷ acc, rw small)
  | inr big ↦ rw big (to_digits_cons f (n / 10) (b'0' + n % 10) (c ∷ acc))
]

to_string_cons : (n : ℕ) → (d : ℕ) × (ds : Bytes) × (to_string n ≡ d ∷ ds)
unfolding to_string
to_string_cons n = elim (Bool-cases (ltb n 10)) [
  | inl small ↦ (b'0' + n, [], rw small)
  | inr big ↦ rw big (to_digits_cons n (n / 10) (b'0' + n % 10) [])
]

from_chars_lem :
    (s : Bytes) (n d : ℕ) (ds : Bytes)
    → s ≡ d ∷ ds
    → digits_value 0 s ≡ some n
    → n < 2 ^ 64
    → from_chars s ≡ some n
unfolding from_chars
from_chars_lem [] n d ds e v h = cc
from_chars_lem (c ∷ cs) n d ds e v h = ground (arith, v)

value_of : (n : ℕ) → digits_value 0 (to_string n) ≡ some n
unfolding to_string digits_value
value_of n = digits_value-to_digits (suc n) n [] (omega arith)

pub from_chars-to_string : (n : ℕ) → n < 2 ^ 64 → from_chars (to_string n) ≡ some n
from_chars-to_string n h =
    let (d, ds, e) = to_string_cons n in from_chars_lem (to_string n) n d ds e (value_of n) h

pub to_string-ne-nil : (n : ℕ) → (d : ℕ) × (ds : Bytes) × (to_string n ≡ d ∷ ds)
to_string-ne-nil n = to_string_cons n

-- whether a text holds digits only
unfoldable pub all_digits : Bytes → Bool
unfolding is_digit
all_digits [] = true
all_digits (c ∷ cs) = is_digit c && all_digits cs

all_digits-to_digits :
    (f n : ℕ) (acc : Bytes) → all_digits acc ≡ true → all_digits (to_digits f n acc) ≡ true
unfolding to_digits all_digits
all_digits-to_digits zero n acc h = h
all_digits-to_digits (suc f) n acc h = elim (Bool-cases (ltb n 10)) [
  | inl small ↦ rw small (ground (arith, h, small))
  | inr big ↦ rw big (all_digits-to_digits f (n / 10) ((b'0' + n % 10) ∷ acc) (ground (arith, h)))
]

pub all_digits-to_string : (n : ℕ) → all_digits (to_string n) ≡ true
unfolding to_string all_digits
all_digits-to_string n = all_digits-to_digits (suc n) n [] refl
