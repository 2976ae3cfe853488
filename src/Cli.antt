-- ===== src/Cli.antt =====
-- The command line (src/cli.hpp, src/cli.cpp). What getopt_long returns, call by call until its -1, is the
-- list of options; `build_info` and the compiled defaults are arguments.
pub mod Laws
use obserwrt.Prelude.{
  ℕ, Bool, true, false, Option, none, some, List, [], ◌∷◌, ◌++◌, if◌then◌else◌, Bytes, codes,
  concat,
}
use obserwrt.Metrics.{BuildInfo}

-- the returned character, with `optarg` where the option has one; `other` is what falls to `default`
pub data Opt : Type 0 where
  ask_help ask_version other : Opt
  set_config set_object : Bytes → Opt

-- `struct Cli`
pub record Cli : Type 0 where
  pub help : Bool
  pub version : Bool
  pub config_path : Bytes
  pub bpf_object_path : Bytes

abbrev pub no_options : Cli
no_options = record { help = false; version = false; config_path = []; bpf_object_path = [] }

-- `default_config_path` and `default_bpf_object`
pub record Defaults : Type 0 where
  pub config_path : Bytes
  pub bpf_object : Bytes

-- what `parse_args` returns: the options, or the exit code with what was printed on stdout and stderr
pub data Parsed : Type 0 where
  run_with : Cli → Parsed
  exit_with : ℕ → Bytes → Bytes → Parsed

-- `print_version`
unfoldable pub version_line : BuildInfo → Bytes
version_line b = concat (
    codes "obserwrt "
    ∷ b.version
    ∷ codes " (commit "
    ∷ b.commit
    ∷ codes ", "
    ∷ b.os
    ∷ codes "/"
    ∷ b.arch
    ∷ codes ")"
    ∷ (10 ∷ [])
    ∷ [])

abbrev line : Bytes → Bytes
line text = text ++ 10 ∷ []

-- `print_usage`
unfoldable pub usage : Defaults → Bytes
usage d = concat (
    line (codes "Usage: obserwrt [options]")
    ∷ line []
    ∷ line (codes "Lightweight eBPF network observability agent.")
    ∷ line []
    ∷ line (codes "Options:")
    ∷ line (codes "  -h, --help           Show this usage and exit")
    ∷ line (codes "  -V, --version        Show build/version info and exit")
    ∷ codes "  -c, --config PATH    Config file to read (default: "
    ∷ d.config_path
    ∷ line (codes ")")
    ∷ line (codes "  -o, --bpf-object PATH")
    ∷ codes "                       Path to obserwrt-bpf.o (default: $BPF_OBJ or "
    ∷ d.bpf_object
    ∷ line (codes ");")
    ∷ line (codes "                       obserwrt-drops.o is looked up beside it")
    ∷ [])

-- the switch on one option; `none` is its `default`
unfoldable pub set_option : Cli → Opt → Option Cli
set_option cli ask_help = some (record cli { help = true })
set_option cli ask_version = some (record cli { version = true })
set_option cli (set_config path) = some (record cli { config_path = path })
set_option cli (set_object path) = some (record cli { bpf_object_path = path })
set_option cli other = none

-- the loop
unfoldable pub options : Cli → List Opt → Option Cli
unfolding set_option
options cli [] = some cli
options cli (x ∷ xs) = elim (set_option cli x) [ none ↦ none | some cli' ↦ options cli' xs ]

-- `parse_args`
unfoldable pub parse_args : BuildInfo → Defaults → List Opt → Parsed
unfolding options version_line usage
parse_args build d xs = elim (options no_options xs) [
  | none ↦ exit_with 1 [] (usage d)
  | some cli ↦
      if cli.help
      then exit_with 0 (usage d) []
      else if cli.version
      then exit_with 0 (version_line build) []
      else run_with cli
]
