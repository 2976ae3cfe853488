-- ===== src/Tests/Options.antt =====
-- Options of the command line.
use obserwrt.Prelude.{◌≡◌, false, List, [], ◌∷◌, codes}
use obserwrt.Metrics.{BuildInfo}
use obserwrt.Cli.{Opt, Defaults, set_config, set_object, run_with, parse_args}
use obserwrt.Cli.Laws.{parse_args_lem}

abbrev build : BuildInfo
build = record {
  version = codes "1.0";
  commit = codes "abc";
  os = codes "linux";
  arch = codes "mips";
}

abbrev pub defaults : Defaults
defaults = record { config_path = codes "obserwrt"; bpf_object = codes "obserwrt-bpf.o" }

abbrev options : List Opt
options = set_config (codes "a") ∷ set_object (codes "b") ∷ set_config (codes "c") ∷ []

parse_args_lem_example :
    parse_args build defaults options
    ≡ run_with (record {
      help = false;
      version = false;
      config_path = codes "c";
      bpf_object_path = codes "b";
    })
parse_args_lem_example = parse_args_lem build defaults options
