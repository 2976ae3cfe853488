-- ===== src/Config/UciOptions.antt =====
-- The options of a UCI package and of an ini file, read by the two backends.
use obserwrt.Prelude.{
  ℕ, ◌≡◌, ◌≢◌, refl, inl, inr, false, Option, none, some, [], ◌∷◌, arith, Bytes, bytes_eq, codes,
  Option-cases,
}
use obserwrt.Config.{Ini, Result, ok, err, parse_uint, parse_bool, parse_list, or_default, ◌>>=◌}
use obserwrt.Config.Uci.{
  Section, UciError, uint_option, noted, number, text_or, bool_option, parse_devices,
}

-- what the options of the three sections stand for in an ini file
pub record Mirrors (look : Section → Bytes → Option Bytes) (m i s : Section) (ini : Ini)
    : Type 0 where
  pub main_type : m.type ≡ some (codes "obserwrt")
  pub ipfix_type : i.type ≡ some (codes "exporter_ipfix")
  pub syslog_type : s.type ≡ some (codes "exporter_syslog")
  pub main_options :
      (key : Bytes)
      → bytes_eq key (codes "device") ≡ false
      → ini (codes "main") key ≡ text_or (look m key) []
  pub ipfix_options : (key : Bytes) → ini (codes "ipfix") key ≡ text_or (look i key) []
  pub syslog_options : (key : Bytes) → ini (codes "syslog") key ≡ text_or (look s key) []
  pub devices : parse_list ini (codes "main") (codes "device") ≡ parse_devices m.options
  pub protocol_given : look s (codes "protocol") ≢ some []
  pub format_given : look s (codes "format") ≢ some []

pub bind-ok :
    {A B : Type 0} (m : Result A) (f : A → Result B) (b : B)
    → m >>= f ≡ ok b
    → (a : A) × (m ≡ ok a) × (f a ≡ ok b)
bind-ok (ok a) f b e = (a, refl, e)
bind-ok (err x) f b e = cc

pub noted-none :
    (r : Result ℕ) (e : Option UciError) → noted r e ≡ none → ((v : ℕ) × (r ≡ ok v)) × (e ≡ none)
noted-none (ok v) e h = ((v, refl), h)
noted-none (err x) e h = cc

pub parse_uint-uint_option :
    (ini : Ini) (sec : Bytes) (look : Section → Bytes → Option Bytes) (x : Section) (key : Bytes)
    (def hi : ℕ)
    → ini sec key ≡ text_or (look x key) []
    → parse_uint ini sec key def hi key ≡ number look x key def hi
unfolding parse_uint uint_option
parse_uint-uint_option ini sec look x key def hi h = elim (Option-cases (look x key)) [
  | inl e ↦ ground (arith, h, e)
  | inr (v, e) ↦ ground (arith, h, e)
]

pub parse_bool-bool_option :
    (ini : Ini) (sec : Bytes) (look : Section → Bytes → Option Bytes) (x : Section) (key : Bytes)
    → ini sec key ≡ text_or (look x key) []
    → parse_bool ini sec key false ≡ bool_option (look x key) false
unfolding parse_bool bool_option bytes_eq
parse_bool-bool_option ini sec look x key h = elim (Option-cases (look x key)) [
  | inl e ↦ rw (h, e) refl
  | inr (v, e) ↦ rw (h, e) refl
]

pub or_default-text_or :
    (o : Option Bytes) (def : Bytes) → o ≢ some [] → or_default (text_or o []) def ≡ text_or o def
or_default-text_or none def h = refl
or_default-text_or (some []) def h = absurd (h refl)
or_default-text_or (some (c ∷ cs)) def h = refl
