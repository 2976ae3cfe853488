-- ===== src/Tests/Quotes.antt =====
-- Quoted values read back.
use obserwrt.Prelude.{
  ◌≤◌, ◌<◌, ◌≡◌, refl, ◌⊎◌, false, true, none, some, List, [], ◌∷◌, ◌++◌, arith, contains, Bytes,
  codes, nat_eq,
}
use mathlib.Core.List.{map}
use obserwrt.Text.{escape}
use obserwrt.Text.Quoting.{read_quoted, read_quoted-escape}
use obserwrt.Text.Log.{LogValue, flag, number, text, slog}
use obserwrt.Text.LogReader.{IsLine, AllFields, read_fields, read_of}
use obserwrt.Text.LogTrip.{slog-read_fields}

abbrev spaced : Bytes
spaced = codes "a b" ++ 10 ∷ 34 ∷ 92 ∷ []

read_quoted-escape_example :
    (read_quoted false (escape spaced ++ 34 ∷ codes ",x") ≡ some (spaced, codes ",x"))
    × (contains 10 (escape spaced) ≡ false)
read_quoted-escape_example = read_quoted-escape spaced (codes ",x")

abbrev attached_fields : List (Bytes × LogValue)
attached_fields =
    (codes "ifname", text spaced) ∷ (codes "ifindex", number 17) ∷ (codes "eth", flag true) ∷ []

spaced_clean : contains 0 spaced ≡ false
unfolding contains
spaced_clean = refl

attached-AllFields : AllFields attached_fields
unfolding contains
attached-AllFields = (
  (refl, (refl, refl, refl), refl),
  ((refl, (refl, refl, refl), tt), ((refl, (refl, refl, refl), tt), tt)),
)

slog-read_fields_example :
    ((6 < 5) × (slog 6 5 spaced attached_fields ≡ none))
    ⊎ ((5 ≤ 6)
        × (line : Bytes) × (slog 6 5 spaced attached_fields ≡ some (5, line))
        × IsLine line
        × (read_fields 4 line ≡ some ((codes "msg", spaced) ∷ map read_of attached_fields)))
slog-read_fields_example =
    slog-read_fields 6 5 4 spaced attached_fields spaced_clean attached-AllFields (omega arith)
