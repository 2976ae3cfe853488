-- ===== src/Text/LogTrip.antt =====
-- A log statement of src/logfmt.hpp is read back from the line that syslog gets.
use obserwrt.Prelude.{
  ℕ, ◌<◌, ◌≤◌, ◌≡◌, refl, ◌∙◌, ◌⊎◌, inl, inr, true, false, none, some, List, [], ◌∷◌, ◌++◌, leb,
  Bytes, arith, length, append_assoc, append-nil, Bool-cases, contains, contains-append, codes,
  to_string, all_digits, all_digits-to_string, nat_eq,
}
use mathlib.Core.List.{map}
use obserwrt.Text.{append_escaped, escape_log, needs_quotes, has_special}
use obserwrt.Text.Log.{
  LogValue, flag, number, text, Log, opened, append_value, field, fields, c_string, closed, finish,
  slog,
}
use obserwrt.Text.LogReader.{
  IsLine, read_fields, read_of, IsClean, IsField, AllFields, field_text, more_fields,
  read_fields_lem,
}

-- the line that the fields are appended to

append_escaped_lem : (out v : Bytes) → append_escaped out v ≡ out ++ append_escaped [] v
unfolding append_escaped
append_escaped_lem out v = elim (Bool-cases (needs_quotes v)) [
  | inl q ↦ rw q (append_assoc out (34 ∷ escape_log v) (34 ∷ []))
  | inr u ↦ rw u refl
]

append_value_lem : (out : Bytes) (v : LogValue) → append_value out v ≡ out ++ append_value [] v
unfolding append_value
append_value_lem out (flag b) = refl
append_value_lem out (number n) = refl
append_value_lem out (text v) = append_escaped_lem out v

field-buf :
    (l : Log) (c : ℕ) (cs : Bytes) (kv : Bytes × LogValue)
    → l.passes ≡ true
    → l.buf ≡ c ∷ cs
    → (field l kv).buf ≡ c ∷ (cs ++ 32 ∷ field_text kv)
unfolding field
field-buf l c cs (k, v) p e =
    rw (p, e, append_value_lem ((c ∷ cs ++ 32 ∷ []) ++ k ++ 61 ∷ []) v) (simp append_assoc)

field-passes : (l : Log) (kv : Bytes × LogValue) → l.passes ≡ true → (field l kv).passes ≡ true
unfolding field
field-passes l (k, v) p = ground (arith, p)

field-prio : (l : Log) (kv : Bytes × LogValue) → (field l kv).prio ≡ l.prio
unfolding field
field-prio l (k, v) = ground arith

fields-buf :
    (kvs : List (Bytes × LogValue)) (l : Log) (c : ℕ) (cs : Bytes)
    → l.passes ≡ true
    → l.buf ≡ c ∷ cs
    → ((fields l kvs).buf ≡ c ∷ (cs ++ more_fields kvs))
      × ((fields l kvs).passes ≡ true)
      × ((fields l kvs).prio ≡ l.prio)
unfolding fields
fields-buf [] l c cs p e = (e ∙ rw (append-nil cs) refl, p, refl)
fields-buf (kv ∷ kvs) l c cs p e =
    let (b, q, same) =
      fields-buf kvs (field l kv) c (cs ++ 32 ∷ field_text kv) (field-passes l kv p)
        (field-buf l c cs kv p e) in
    (
      b ∙ rw (append_assoc cs (32 ∷ field_text kv) (more_fields kvs)) refl,
      q,
      same ∙ field-prio l kv,
    )

-- no NUL and no line break comes into a line

c_string_lem : (s : Bytes) → contains 0 s ≡ false → c_string s ≡ s
unfolding c_string contains
c_string_lem [] h = refl
c_string_lem (c ∷ cs) h = ground (arith, h, c_string_lem cs)

digits-contains : (x : ℕ) (s : Bytes) → x < 48 → all_digits s ≡ true → contains x s ≡ false
unfolding all_digits contains
digits-contains x [] l h = refl
digits-contains x (c ∷ cs) l h = ground (arith, l, h, digits-contains x cs l)

IsLine-append : (s t : Bytes) → IsLine s → IsLine t → IsLine (s ++ t)
IsLine-append s t (a, b, c) (d, e, f) = (
  ground (arith, a, d, contains-append 0 s t),
  ground (arith, b, e, contains-append 10 s t),
  ground (arith, c, f, contains-append 13 s t),
)

escape_log-IsLine : (v : Bytes) → contains 0 v ≡ false → IsLine (escape_log v)
unfolding escape_log contains
escape_log-IsLine [] h = (refl, refl, refl)
escape_log-IsLine (c ∷ cs) h = ground (arith, h, escape_log-IsLine cs)

unquoted-IsLine : (v : Bytes) → contains 0 v ≡ false → has_special v ≡ false → IsLine v
unfolding has_special contains
unquoted-IsLine [] h p = (refl, refl, refl)
unquoted-IsLine (c ∷ cs) h p = ground (arith, h, p, unquoted-IsLine cs)

append_escaped-IsLine : (v : Bytes) → contains 0 v ≡ false → IsLine (append_escaped [] v)
unfolding append_escaped contains escape_log
append_escaped-IsLine [] h = (refl, refl, refl)
append_escaped-IsLine (c ∷ cs) h = elim (Bool-cases (has_special (c ∷ cs))) [
  | inl q ↦ rw q (
      IsLine-append (34 ∷ []) (escape_log (c ∷ cs) ++ 34 ∷ []) (refl, refl, refl)
        (IsLine-append (escape_log (c ∷ cs)) (34 ∷ []) (escape_log-IsLine (c ∷ cs) h)
          (refl, refl, refl)))
  | inr u ↦ rw u (unquoted-IsLine (c ∷ cs) h u)
]

append_value-IsLine : (v : LogValue) → IsClean v → IsLine (append_value [] v)
unfolding append_value contains
append_value-IsLine (flag true) h = (refl, refl, refl)
append_value-IsLine (flag false) h = (refl, refl, refl)
append_value-IsLine (number n) h = (
  digits-contains 0 (to_string n) (omega arith) (all_digits-to_string n),
  digits-contains 10 (to_string n) (omega arith) (all_digits-to_string n),
  digits-contains 13 (to_string n) (omega arith) (all_digits-to_string n),
)
append_value-IsLine (text v) h = append_escaped-IsLine v h

field_text-IsLine : (kv : Bytes × LogValue) → IsField kv → IsLine (field_text kv)
unfolding contains
field_text-IsLine (k, v) (_, h, c) =
    IsLine-append k (61 ∷ append_value [] v) h
      (IsLine-append (61 ∷ []) (append_value [] v) (refl, refl, refl) (append_value-IsLine v c))

more_fields-IsLine : (kvs : List (Bytes × LogValue)) → AllFields kvs → IsLine (more_fields kvs)
unfolding contains
more_fields-IsLine [] h = (refl, refl, refl)
more_fields-IsLine (kv ∷ kvs) (h, hs) =
    IsLine-append (32 ∷ []) (field_text kv ++ more_fields kvs) (refl, refl, refl)
      (IsLine-append (field_text kv) (more_fields kvs) (field_text-IsLine kv h)
        (more_fields-IsLine kvs hs))

-- the statement's line

abbrev whole : Bytes → List (Bytes × LogValue) → Bytes
whole msg kvs = field_text (codes "msg", text msg) ++ more_fields kvs

closed_lem :
    (l : Log) (c : ℕ) (cs : Bytes)
    → l.passes ≡ true
    → l.buf ≡ c ∷ cs
    → closed l ≡ some (l.prio, c_string (c ∷ cs))
unfolding closed
closed_lem l c cs p e = rw (p, e) refl

slog_passed :
    (level prio : ℕ) (msg : Bytes) (kvs : List (Bytes × LogValue))
    → leb prio level ≡ true
    → slog level prio msg kvs ≡ some (prio, c_string (whole msg kvs))
unfolding slog opened field fields
slog_passed level prio msg kvs h =
    let l₀ : Log = record { prio = prio; passes = true; done = false; buf = [] } in
    let l = field l₀ (codes "msg", text msg) in
    let (b, p, same) =
      fields-buf kvs l 109 (codes "sg=" ++ append_value [] (text msg)) refl
        (append_value_lem (codes "msg=") (text msg)) in
    let line =
      closed_lem (finish (fields l kvs)) 109
        (codes "sg=" ++ append_value [] (text msg) ++ more_fields kvs) p b in
    rw h (line ∙ rw same refl)

msg-IsField : (msg : Bytes) → contains 0 msg ≡ false → IsField (codes "msg", text msg)
unfolding contains
msg-IsField msg clean = (refl, (refl, refl, refl), clean)

whole-IsLine :
    (msg : Bytes) (kvs : List (Bytes × LogValue))
    → contains 0 msg ≡ false
    → AllFields kvs
    → IsLine (whole msg kvs)
whole-IsLine msg kvs clean f =
    IsLine-append (field_text (codes "msg", text msg)) (more_fields kvs)
      (field_text-IsLine (codes "msg", text msg) (msg-IsField msg clean)) (more_fields-IsLine kvs f)

slog_silent :
    (level prio : ℕ) (msg : Bytes) (kvs : List (Bytes × LogValue))
    → leb prio level ≡ false
    → slog level prio msg kvs ≡ none
unfolding slog opened closed
slog_silent level prio msg kvs h = rw h refl

-- A log statement with any message and any fields, without NUL in their texts and without `=` or line breaks in the keys,
-- is silent exactly if its priority is above the level; otherwise syslog gets one line at that priority, without a line
-- break even where the values hold some, from which the
-- message and every field, with its key and the text of its value, are read back in order.
pub slog-read_fields :
    (level prio fuel : ℕ) (msg : Bytes) (kvs : List (Bytes × LogValue))
    → contains 0 msg ≡ false
    → AllFields kvs
    → length kvs < fuel
    → ((level < prio) × (slog level prio msg kvs ≡ none))
      ⊎ ((prio ≤ level)
          × (line : Bytes) × (slog level prio msg kvs ≡ some (prio, line))
          × IsLine line
          × (read_fields fuel line ≡ some ((codes "msg", msg) ∷ map read_of kvs)))
slog-read_fields level prio fuel msg kvs clean f enough = elim (Bool-cases (leb prio level)) [
  | inr above ↦ inl (ground (arith, above), slog_silent level prio msg kvs above)
  | inl low ↦ inr (
    ground (arith, low),
    whole msg kvs,
    slog_passed level prio msg kvs low
        ∙ rw (c_string_lem (whole msg kvs) ((whole-IsLine msg kvs clean f).0)) refl,
    whole-IsLine msg kvs clean f,
    read_fields_lem fuel (codes "msg", text msg) kvs enough (msg-IsField msg clean) f,
  )
]
