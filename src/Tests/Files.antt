-- ===== src/Tests/Files.antt =====
-- The textfile, the UCI backend, and the BPF objects on concrete answers.
use obserwrt.Prelude.{
  ℕ, zero, suc, length-replicate, ◌≡◌, refl, ◌⊎◌, true, Option, none, some, List, [], ◌∷◌, arith,
  if◌then◌else◌, Bytes, codes, bytes_eq, length, replicate,
}
use obserwrt.Metrics.{Metrics, BuildInfo, Files, FileCalls, write, exposition}
use obserwrt.Metrics.Textfile.{write-Textfile, Progress}
use obserwrt.Config.{Ini}
use obserwrt.Config.Laws.{IsConfig}
use obserwrt.Config.Uci.{Section, Value, Loaded, sections, load_config, text_or}
use obserwrt.Config.UciLaws.{HasBounds, load_config-IsConfig}
use obserwrt.Bpf.Load.{Loader, Loading, LoadResult, no_objects, load, close_all}
use obserwrt.Bpf.Ownership.{HasHandles, IsFinished, load-IsFinished, Held, without}

abbrev pub metrics : Metrics
metrics = record {
  is_active = true;
  file = codes "/var/obserwrt.prom";
  interval_s = 20;
  total_flows = 3;
  total_errors = 0;
  flows_active = 1;
  map_entries = 1;
  bpf_packets = 10;
  bpf_bytes = 1000;
  bpf_accounted = 10;
  bpf_flows_created = 1;
  bpf_drops = 0;
  bpf_drops_unparsed = 0;
  map_limit = 4096;
  devices = codes "eth0" ∷ [];
  dev_counters = [];
}

abbrev pub build : BuildInfo
build = record {
  version = codes "0.3";
  commit = codes "abc";
  os = codes "linux";
  arch = codes "mips";
}

-- each write takes one byte
abbrev calls : FileCalls
calls = record {
  opens = true;
  writes = replicate (length (exposition metrics build)) (some 1);
  renames = true;
}

pub Progress-replicate : (n : ℕ) → Progress (replicate n (some 1))
Progress-replicate zero = tt
Progress-replicate (suc n) = (omega arith, Progress-replicate n)

abbrev pub files : Files
files = record { target = none; tmp = none }

write-Textfile_example :
    (fs' : Files) × (write metrics build calls files ≡ some fs')
    × ((fs'.target ≡ files.target)
        ⊎ ((metrics.is_active ≡ true) × (fs'.target ≡ some (exposition metrics build))))
    × ((metrics.is_active ≡ true) → calls.opens ≡ true → fs'.tmp ≡ none)
write-Textfile_example =
    write-Textfile metrics build calls files
      (Progress-replicate (length (exposition metrics build)))
      (omega (arith, length-replicate {A = Option ℕ} (length (exposition metrics build)) (some 1)))

-- the first option of the name that is a string
abbrev look_in : List (Bytes × Value) → Bytes → Option Bytes
look_in [] key = none
look_in ((name, Value.text v) ∷ options) key =
    let rest = look_in options key in if bytes_eq name key then v else rest
look_in ((name, Value.list v) ∷ options) key = look_in options key

abbrev look : Section → Bytes → Option Bytes
look s key = look_in s.options key

abbrev main_section : Section
main_section = record {
  type = some (codes "obserwrt");
  options =
      (codes "device", Value.list (codes "eth0" ∷ codes "wan" ∷ []))
      ∷ (codes "max_flows", Value.text (some (codes "4096")))
      ∷ [];
}

abbrev ipfix_section : Section
ipfix_section = record {
  type = some (codes "exporter_ipfix");
  options =
      (codes "enabled", Value.text (some (codes "1")))
      ∷ (codes "collector_host", Value.text (some (codes "10.0.0.9")))
      ∷ [];
}

abbrev syslog_section : Section
syslog_section = record { type = some (codes "exporter_syslog"); options = [] }

abbrev ini : Ini
ini section key =
    if bytes_eq section (codes "main")
    then (if bytes_eq key (codes "device")
        then codes "eth0 wan"
        else text_or (look main_section key) [])
    else if bytes_eq section (codes "ipfix")
    then text_or (look ipfix_section key) []
    else text_or (look syslog_section key) []

abbrev answer : Option Loaded
answer = some (sections (main_section ∷ ipfix_section ∷ syslog_section ∷ []))

load_config-IsConfig_example :
    HasBounds (load_config look answer).0
    × ((load_config look answer).1 ≡ none → IsConfig (load_config look answer).0)
load_config-IsConfig_example = load_config-IsConfig look answer

-- a libbpf in which every call succeeds
abbrev loader : Loader Held
loader = record {
  open_file = λ w path. (some (length w.0), (length w.0 ∷ w.0, w.1));
  find_map = λ w o name. some 5;
  find_program = λ w o name. some 6;
  max_entries = λ w m. 4096;
  set_max_entries = λ w m n. w;
  set_type = λ w p. w;
  set_expected_attach_type = λ w p d. w;
  load = λ w o. (true, w);
  reuse_fd = λ w m n. (true, w);
  attach = λ w p. (some (length w.1), (w.0, length w.1 ∷ w.1));
  destroy_link = λ w l. (w.0, without l w.1);
  close = λ w o. (without o w.0, w.1);
}

abbrev loader-HasHandles : HasHandles loader
loader-HasHandles = record {
  held = λ w. w;
  held-open_file = λ w path. refl;
  held-close = λ w h. refl;
  held-attach = λ w p. refl;
  held-destroy_link = λ w h. refl;
  held-set_max_entries = λ w m n. refl;
  held-set_type = λ w p. refl;
  held-set_expected_attach_type = λ w p d. refl;
  held-load = λ w h. refl;
  held-reuse_fd = λ w m n. refl;
}

abbrev nothing : Held
nothing = ([], [])

abbrev loaded_world : Held → LoadResult × Loading Held
loaded_world w =
    load loader (codes "obserwrt-bpf.o") (codes "obserwrt-drops.o") 0 true
      (record { objects = no_objects; world = w })

load-IsFinished_example :
    IsFinished loader loader-HasHandles nothing true (loaded_world nothing)
    × (close_all loader (loaded_world nothing).1 ≡ nothing)
load-IsFinished_example =
    load-IsFinished loader loader-HasHandles nothing (codes "obserwrt-bpf.o")
      (codes "obserwrt-drops.o") 0 true nothing refl
