-- ===== src/Cli/Laws.antt =====
-- What the options come to (src/cli.cpp).
use obserwrt.Prelude.{
  ◌≡◌, refl, ◌∙◌, Bool, true, false, ◌||◌, none, some, List, [], ◌∷◌, if◌then◌else◌, Bytes, arith,
}
use obserwrt.Metrics.{BuildInfo}
use obserwrt.Cli.{
  Opt, ask_help, ask_version, set_config, set_object, other, Cli, no_options, Defaults, run_with,
  exit_with, version_line, usage, options, parse_args,
}

-- the reference view of the options: whether one is there, and the last argument of one

abbrev pub has_other : List Opt → Bool
has_other [] = false
has_other (other ∷ xs) = true
has_other (x ∷ xs) = has_other xs

abbrev pub has_help : List Opt → Bool
has_help [] = false
has_help (ask_help ∷ xs) = true
has_help (x ∷ xs) = has_help xs

abbrev pub has_version : List Opt → Bool
has_version [] = false
has_version (ask_version ∷ xs) = true
has_version (x ∷ xs) = has_version xs

abbrev pub last_config : Bytes → List Opt → Bytes
last_config path [] = path
last_config path (set_config p ∷ xs) = last_config p xs
last_config path (x ∷ xs) = last_config path xs

abbrev pub last_object : Bytes → List Opt → Bytes
last_object path [] = path
last_object path (set_object p ∷ xs) = last_object p xs
last_object path (x ∷ xs) = last_object path xs

options_lem :
    (xs : List Opt) (cli : Cli)
    → options cli xs ≡ (
        if has_other xs
        then none
        else some (record {
          help = cli.help || has_help xs;
          version = cli.version || has_version xs;
          config_path = last_config cli.config_path xs;
          bpf_object_path = last_object cli.bpf_object_path xs;
        }))
unfolding options
options_lem [] cli = ground arith
options_lem (ask_help ∷ xs) cli = options_lem xs (record cli { help = true }) ∙ ground arith
options_lem (ask_version ∷ xs) cli = options_lem xs (record cli { version = true }) ∙ ground arith
options_lem (set_config p ∷ xs) cli = options_lem xs (record cli { config_path = p })
options_lem (set_object p ∷ xs) cli = options_lem xs (record cli { bpf_object_path = p })
options_lem (other ∷ xs) cli = refl

-- An unknown option or a missing argument, wherever it stands, exits with 1 and the usage on stderr alone;
-- otherwise help, wherever it stands, exits with 0 and prints the usage, and else version prints its line;
-- else the agent runs with the last path given for each option, or none.
pub parse_args_lem :
    (build : BuildInfo) (d : Defaults) (xs : List Opt)
    → parse_args build d xs ≡ (
        if has_other xs
        then exit_with 1 [] (usage d)
        else if has_help xs
        then exit_with 0 (usage d) []
        else if has_version xs
        then exit_with 0 (version_line build) []
        else run_with (record {
          help = false;
          version = false;
          config_path = last_config [] xs;
          bpf_object_path = last_object [] xs;
        }))
unfolding parse_args
parse_args_lem build d xs = ground (arith, options_lem xs no_options)
