-- ===== src/Text/Quoting.antt =====
-- Readers of quoted values, and what they read back.
use obserwrt.Prelude.{
  ℕ, ◌≡◌, refl, ◌⊎◌, Bool, true, false, Option, none, some, [], ◌∷◌, ◌++◌, ◌==◌, if◌then◌else◌,
  Bytes, arith, append_assoc, Bool-cases, contains, nat_eq, inl, inr,
}
use obserwrt.Text.{escape, escape_log, has_special, needs_quotes, append_escaped}

abbrev pub prepend : ℕ → Option (Bytes × Bytes) → Option (Bytes × Bytes)
prepend c none = none
prepend c (some (v, rest)) = some (c ∷ v, rest)

abbrev unescape : ℕ → ℕ
unescape c = if c == 110 then 10 else if c == 114 then 13 else c

-- A value up to its closing quote, and the text behind; the flag is set behind a backslash.
unfoldable pub read_quoted : Bool → Bytes → Option (Bytes × Bytes)
read_quoted escaped [] = none
read_quoted true (c ∷ cs) = prepend (unescape c) (read_quoted false cs)
read_quoted false (c ∷ cs) =
    let plain = prepend c (read_quoted false cs) in
    let after = read_quoted true cs in
    if c == 34 then some ([], cs) else if c == 92 then after else plain

-- A value up to a space, or in quotes.
unfoldable pub read_plain : Bytes → Option (Bytes × Bytes)
read_plain [] = some ([], [])
read_plain (c ∷ cs) =
    let later = prepend c (read_plain cs) in if c == 32 then some ([], c ∷ cs) else later

unfoldable pub read_value : Bytes → Option (Bytes × Bytes)
unfolding read_quoted read_plain
read_value [] = some ([], [])
read_value (c ∷ cs) =
    let quoted = read_quoted false cs in
    let plain = read_plain (c ∷ cs) in if c == 34 then quoted else plain

pub read_escape : (v rest : Bytes) → read_quoted false (escape v ++ 34 ∷ rest) ≡ some (v, rest)
unfolding read_quoted escape
read_escape [] rest = refl
read_escape (c ∷ cs) rest = ground (arith, read_escape cs rest)

no_newline : (v : Bytes) → contains 10 (escape v) ≡ false
unfolding escape contains
no_newline [] = refl
no_newline (c ∷ cs) = ground (arith, no_newline cs)

-- A label value of the exposition, whatever it holds, is written without a newline, and a reader
-- finds it back up to its closing quote.
pub read_quoted-escape :
    (v rest : Bytes)
    → (read_quoted false (escape v ++ 34 ∷ rest) ≡ some (v, rest))
      × (contains 10 (escape v) ≡ false)
read_quoted-escape v rest = (read_escape v rest, no_newline v)

read_quoted-escape_log :
    (v rest : Bytes) → read_quoted false (escape_log v ++ 34 ∷ rest) ≡ some (v, rest)
unfolding read_quoted escape_log
read_quoted-escape_log [] rest = refl
read_quoted-escape_log (c ∷ cs) rest = ground (arith, read_quoted-escape_log cs rest)

-- what stands behind a value in a line: nothing, or a space
abbrev pub IsTail : Bytes → Type 0
IsTail rest = (rest ≡ []) ⊎ ((r : Bytes) × (rest ≡ 32 ∷ r))

read_plain_lem :
    (v rest : Bytes) → IsTail rest → has_special v ≡ false → read_plain (v ++ rest) ≡ some (v, rest)
unfolding read_plain has_special
read_plain_lem [] rest (inl e) h = rw e refl
read_plain_lem [] rest (inr (r, e)) h = rw e refl
read_plain_lem (c ∷ cs) rest t h = ground (arith, h, read_plain_lem cs rest t)

pub value_unquoted :
    (v rest : Bytes)
    → IsTail rest
    → needs_quotes v ≡ false
    → read_value (v ++ rest) ≡ some (v, rest)
unfolding read_value has_special
value_unquoted [] rest t h = ground arith
value_unquoted (c ∷ cs) rest t h = ground (arith, h, read_plain_lem (c ∷ cs) rest t h)

-- A value of a log line, whatever it holds, is read back from the line up to what stands behind it.
pub read_value-append_escaped :
    (v rest : Bytes) → IsTail rest → read_value (append_escaped [] v ++ rest) ≡ some (v, rest)
unfolding append_escaped read_value
read_value-append_escaped v rest t = elim (Bool-cases (needs_quotes v)) [
  | inl q ↦
      ground (arith, q, append_assoc (escape_log v) (34 ∷ []) rest, read_quoted-escape_log v rest)
  | inr u ↦ ground (arith, u, value_unquoted v rest t u)
]
