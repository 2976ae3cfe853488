-- ===== src/Text.antt =====
-- Text that the agent formats for other programs to read: values of the Prometheus exposition
-- (src/prometheus.cpp) and of its own log lines (src/logfmt.hpp).
pub mod Quoting
pub mod Log
pub mod LogReader
pub mod LogTrip
use obserwrt.Prelude.{
  ℕ, Bool, true, false, ◌||◌, not, List, [], ◌∷◌, ◌++◌, ◌==◌, if◌then◌else◌, Bytes, bytes_eq,
  contains, codes, to_string, bytes_is_eq,
}

-- the loop of `PromExposition::labels` over a value
unfoldable pub escape : Bytes → Bytes
escape [] = []
escape (c ∷ cs) =
    let rest = escape cs in
    if c == 92
    then 92 ∷ 92 ∷ rest
    else if c == 34
    then 92 ∷ 34 ∷ rest
    else if c == 10
    then 92 ∷ 110 ∷ rest
    else c ∷ rest

abbrev pub label : Bytes × Bytes → Bytes
label (key, value) = key ++ 61 ∷ 34 ∷ escape value ++ 34 ∷ []

-- the labels behind the first
unfoldable pub more_labels : List (Bytes × Bytes) → Bytes
more_labels [] = []
more_labels (kv ∷ rest) = 44 ∷ label kv ++ more_labels rest

-- `PromExposition::labels`
unfoldable pub labels : List (Bytes × Bytes) → Bytes
unfolding more_labels
labels [] = []
labels (kv ∷ rest) = 123 ∷ label kv ++ more_labels rest ++ 125 ∷ []

-- `class PromExposition`
pub record PromExposition : Type 0 where
  pub declared : List Bytes
  pub out : Bytes

-- the lines that declare a family
unfoldable pub declaration : Bytes → Bytes → Bytes → Bytes
declaration name type help =
    codes "# HELP " ++ name ++ 32 ∷ help ++ 10 ∷ codes "# TYPE " ++ name ++ 32 ∷ type ++ 10 ∷ []

-- `PromExposition::sample`
unfoldable pub sample : PromExposition → Bytes → Bytes → Bytes → Bytes → ℕ → PromExposition
unfolding declaration
sample p name type help labelled value =
    let seen = contains name p.declared in
    let head = if seen then p.out else p.out ++ declaration name type help in
    record {
      declared = if seen then p.declared else name ∷ p.declared;
      out = head ++ name ++ labelled ++ 32 ∷ to_string value ++ 10 ∷ [];
    }

-- `counter`
unfoldable pub counter : PromExposition → Bytes → Bytes → Bytes → ℕ → PromExposition
counter p name help labelled v = sample p name (codes "counter") help labelled v

-- `gauge`
unfoldable pub gauge : PromExposition → Bytes → Bytes → Bytes → ℕ → PromExposition
gauge p name help labelled v = sample p name (codes "gauge") help labelled v

-- `clear`
unfoldable pub clear : PromExposition → PromExposition
clear p = record { declared = []; out = [] }

-- the test of `append_escaped` on a character
abbrev pub is_special : ℕ → Bool
is_special c = c == 32 || c == 9 || c == 34 || c == 92 || c == 61 || c == 10 || c == 13

-- whether the first loop of `append_escaped` finds one
unfoldable pub has_special : Bytes → Bool
has_special [] = false
has_special (c ∷ cs) = is_special c || has_special cs

abbrev pub needs_quotes : Bytes → Bool
needs_quotes [] = true
needs_quotes (c ∷ cs) = has_special (c ∷ cs)

-- the second loop of `append_escaped`
unfoldable pub escape_log : Bytes → Bytes
escape_log [] = []
escape_log (c ∷ cs) =
    let rest = escape_log cs in
    if c == 34
    then 92 ∷ 34 ∷ rest
    else if c == 92
    then 92 ∷ 92 ∷ rest
    else if c == 10
    then 92 ∷ 110 ∷ rest
    else if c == 13
    then 92 ∷ 114 ∷ rest
    else c ∷ rest

-- `append_escaped`
unfoldable pub append_escaped : Bytes → Bytes → Bytes
unfolding has_special escape_log
append_escaped out v = if needs_quotes v then out ++ 34 ∷ escape_log v ++ 34 ∷ [] else out ++ v
