-- ===== src/Text/LogReader.antt =====
-- A reader of the log lines of src/logfmt.hpp, and what it reads back of a line's fields.
use obserwrt.Prelude.{
  ℕ, zero, suc, ◌<◌, ◌≡◌, refl, inl, inr, true, false, Option, none, some, List, [], ◌∷◌, ◌++◌,
  ◌==◌, if◌then◌else◌, Bytes, arith, length, append_assoc, contains, codes, to_string, all_digits,
  all_digits-to_string, to_string-ne-nil, nat_eq,
}
use mathlib.Core.List.{map}
use obserwrt.Text.{needs_quotes, has_special}
use obserwrt.Text.Quoting.{prepend, read_value, IsTail, value_unquoted, read_value-append_escaped}
use obserwrt.Text.Log.{LogValue, flag, number, text, append_value}

-- a key up to its `=`, and the text behind
unfoldable pub read_key : Bytes → Option (Bytes × Bytes)
read_key [] = none
read_key (c ∷ cs) = let later = prepend c (read_key cs) in if c == 61 then some ([], cs) else later

abbrev pub with_value : Bytes → Option (Bytes × Bytes) → Option ((Bytes × Bytes) × Bytes)
with_value k none = none
with_value k (some (v, rest)) = some ((k, v), rest)

abbrev pub with_key : Option (Bytes × Bytes) → Option ((Bytes × Bytes) × Bytes)
with_key none = none
with_key (some (k, rest)) = with_value k (read_value rest)

abbrev pub joined : Bytes × Bytes → Option (List (Bytes × Bytes)) → Option (List (Bytes × Bytes))
joined kv none = none
joined kv (some kvs) = some (kv ∷ kvs)

-- A line of fields with one space between them. The fuel bounds their number.
unfoldable pub read_fields : ℕ → Bytes → Option (List (Bytes × Bytes))
read_fields zero s = none
read_fields (suc fuel) s = elim (with_key (read_key s)) [
  | none ↦ none
  | some (kv, []) ↦ some (kv ∷ [])
  | some (kv, c ∷ rest) ↦ joined kv (read_fields fuel rest)
]

-- the text that a value stands for
abbrev pub value_text : LogValue → Bytes
value_text (flag b) = if b then codes "true" else codes "false"
value_text (number n) = to_string n
value_text (text v) = v

abbrev pub read_of : Bytes × LogValue → Bytes × Bytes
read_of (k, v) = (k, value_text v)

-- A line holds none of the characters NUL, newline and carriage return.
abbrev pub IsLine : Bytes → Type 0
IsLine s = (contains 0 s ≡ false) × (contains 10 s ≡ false) × (contains 13 s ≡ false)

-- a text without NUL, and a key on one line, without `=`
abbrev pub IsClean : LogValue → Type 0
IsClean (flag b) = Unit {0}
IsClean (number n) = Unit {0}
IsClean (text v) = contains 0 v ≡ false

abbrev pub IsField : Bytes × LogValue → Type 0
IsField (k, v) = (contains 61 k ≡ false) × IsLine k × IsClean v

abbrev pub AllFields : List (Bytes × LogValue) → Type 0
AllFields [] = Unit {0}
AllFields (kv ∷ kvs) = IsField kv × AllFields kvs

abbrev pub field_text : Bytes × LogValue → Bytes
field_text (k, v) = k ++ 61 ∷ append_value [] v

abbrev pub more_fields : List (Bytes × LogValue) → Bytes
more_fields [] = []
more_fields (kv ∷ kvs) = 32 ∷ field_text kv ++ more_fields kvs

-- what reads a line

read_key_lem : (k rest : Bytes) → contains 61 k ≡ false → read_key (k ++ 61 ∷ rest) ≡ some (k, rest)
unfolding read_key contains
read_key_lem [] rest h = refl
read_key_lem (c ∷ cs) rest h = ground (arith, h, read_key_lem cs rest)

pub digits_plain : (s : Bytes) → all_digits s ≡ true → has_special s ≡ false
unfolding all_digits has_special
digits_plain [] h = refl
digits_plain (c ∷ cs) h = ground (arith, h, digits_plain cs)

number_unquoted :
    (s : Bytes) (d : ℕ) (ds : Bytes) → s ≡ d ∷ ds → all_digits s ≡ true → needs_quotes s ≡ false
number_unquoted [] d ds e h = cc
number_unquoted (c ∷ cs) d ds e h = digits_plain (c ∷ cs) h

read_value_lem :
    (v : LogValue) (rest : Bytes)
    → IsTail rest
    → read_value (append_value [] v ++ rest) ≡ some (value_text v, rest)
unfolding append_value has_special
read_value_lem (flag true) rest t = value_unquoted (codes "true") rest t refl
read_value_lem (flag false) rest t = value_unquoted (codes "false") rest t refl
read_value_lem (number n) rest t =
    let (d, ds, e) = to_string-ne-nil n in
    value_unquoted (to_string n) rest t
      (number_unquoted (to_string n) d ds e (all_digits-to_string n))
read_value_lem (text v) rest t = read_value-append_escaped v rest t

more_fields_lem : (kvs : List (Bytes × LogValue)) → IsTail (more_fields kvs)
more_fields_lem [] = inl refl
more_fields_lem (kv ∷ kvs) = inr (field_text kv ++ more_fields kvs, refl)

read_field :
    (kv : Bytes × LogValue) (rest : Bytes)
    → IsField kv
    → IsTail rest
    → with_key (read_key (field_text kv ++ rest)) ≡ some (read_of kv, rest)
read_field (k, v) rest (h, _, _) t =
    rw
      (
        append_assoc k (61 ∷ append_value [] v) rest,
        read_key_lem k (append_value [] v ++ rest) h,
        read_value_lem v rest t,
      )
      refl

pub read_fields_lem :
    (fuel : ℕ) (kv : Bytes × LogValue) (kvs : List (Bytes × LogValue))
    → length kvs < fuel
    → IsField kv
    → AllFields kvs
    → read_fields fuel (field_text kv ++ more_fields kvs) ≡ some (read_of kv ∷ map read_of kvs)
unfolding read_fields
read_fields_lem zero kv kvs h f fs = absurd (omega arith)
read_fields_lem (suc fuel) kv [] h f fs = rw (read_field kv [] f (inl refl), read_fields) refl
read_fields_lem (suc fuel) kv (kv' ∷ kvs) h f (f', fs) =
    rw
      (
        read_field kv (more_fields (kv' ∷ kvs)) f (more_fields_lem (kv' ∷ kvs)),
        read_fields,
        read_fields_lem fuel kv' kvs (omega arith) f' fs,
      )
      refl
