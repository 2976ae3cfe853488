-- ===== src/Text/Log.antt =====
-- class Log and the SLOG macro of src/logfmt.hpp, with the level of src/log.hpp. The integers that
-- the agent logs are unsigned. What syslog(3) gets is the priority and the text up to its first NUL.
use obserwrt.Prelude.{
  ℕ, Bool, true, false, ◌&&◌, not, Option, none, some, List, [], ◌∷◌, ◌++◌, ◌==◌, leb,
  if◌then◌else◌, Bytes, codes, to_string,
}
use obserwrt.Text.{append_escaped}

-- what `append_value` tells apart
pub data LogValue : Type 0 where
  flag : Bool → LogValue
  number : ℕ → LogValue
  text : Bytes → LogValue

-- `class Log`
pub record Log : Type 0 where
  pub prio : ℕ
  pub passes : Bool
  pub done : Bool
  pub buf : Bytes

-- the constructor, with `g_log_level`
unfoldable pub opened : ℕ → ℕ → Log
opened level prio = record { prio = prio; passes = leb prio level; done = false; buf = [] }

-- `append_value`
unfoldable pub append_value : Bytes → LogValue → Bytes
append_value out (flag b) = out ++ (if b then codes "true" else codes "false")
append_value out (number n) = out ++ to_string n
append_value out (text v) = append_escaped out v

-- the separator
unfoldable pub spaced : Bytes → Bytes
spaced [] = []
spaced (c ∷ cs) = (c ∷ cs) ++ 32 ∷ []

-- `operator()`
unfoldable pub field : Log → Bytes × LogValue → Log
unfolding spaced
field l (key, v) =
    if l.passes then record l { buf = append_value (spaced l.buf ++ key ++ 61 ∷ []) v } else l

-- a chain of calls
unfoldable pub fields : Log → List (Bytes × LogValue) → Log
fields l [] = l
fields l (kv ∷ kvs) = fields (field l kv) kvs

-- `enabled` and `finish`
unfoldable pub enabled : Log → Bool
enabled l = l.passes && not l.done

unfoldable pub finish : Log → Log
finish l = record l { done = true }

-- what `%s` prints
unfoldable pub c_string : Bytes → Bytes
c_string [] = []
c_string (c ∷ cs) = let rest = c_string cs in if c == 0 then [] else c ∷ rest

-- the test of the destructor on the text
abbrev pub handed : ℕ → Bytes → Option (ℕ × Bytes)
handed prio [] = none
handed prio (c ∷ cs) = some (prio, c_string (c ∷ cs))

-- the destructor: the call of syslog, if it is made
unfoldable pub closed : Log → Option (ℕ × Bytes)
unfolding c_string
closed l = if l.passes then handed l.prio l.buf else none

-- The statement `SLOG(prio, msg)(k, v)...;`. Its loop's body is run once if the log is enabled, and
-- `finish` ends the loop.
unfoldable pub slog : ℕ → ℕ → Bytes → List (Bytes × LogValue) → Option (ℕ × Bytes)
unfolding opened enabled finish fields closed
slog level prio msg kvs =
    let l = opened level prio in
    closed (if enabled l then finish (fields l ((codes "msg", text msg) ∷ kvs)) else l)
