-- ===== src/Cli/Args.antt =====
-- cli.rs: what the words of the command line mean.
pub mod Pieces
pub mod Words
pub mod Laws
use vaultcrdt_server.Base.{
  if◌then◌else◌, tests, ◌==◌, nat_eq, list_eq, option_eq, pair_eq, Text, codes, Bool, true, false,
  ◌||◌, Option, none, some, List, [], ◌∷◌, ◌++◌,
}
use vaultcrdt_server.Base.Strings.{strip_prefix, starts_with}
use vaultcrdt_server.Cli.Url.{normalize_url}

pub data Invocation : Type 0 where
  server : Invocation
  cli : List Text → Invocation
  usage_error : Invocation

abbrev pub is_command : Text → Bool
is_command first =
    first == codes "vault"
    || first == codes "invite"
    || first == codes "help"
    || first == codes "--help"
    || first == codes "-h"

-- The arguments without the program's name.
unfoldable pub parse_invocation : List Text → Invocation
parse_invocation [] = server
parse_invocation (first ∷ rest) = if is_command first then cli (first ∷ rest) else usage_error

pub record Parsed : Type 0 where
  pub positionals : List Text
  pub server_url : Option Text
  pub json : Bool

-- What an argument is by itself.
pub data Word : Type 0 where
  json_flag : Word
  -- `--server-url=value`
  url_of : (value : Text) → Word
  -- `--server-url`, which takes the next argument
  url_flag : Word
  unknown_flag : Word
  positional : Word

abbrev pub or_word : Option Text → Word → Word
or_word none other = other
or_word (some value) other = url_of value

unfoldable pub word : Text → Word
word arg =
    if arg == codes "--json"
    then json_flag
    else or_word (strip_prefix (codes "--server-url=") arg) (
        if arg == codes "--server-url"
        then url_flag
        else if starts_with (codes "-") arg
        then unknown_flag
        else positional)

abbrev pub set_url : Text → Parsed → Parsed
set_url url p = record p { server_url = some url }

abbrev pub set_json : Parsed → Parsed
set_json p = record p { json = true }

abbrev pub push : Text → Parsed → Parsed
push arg p = record p { positionals = p.positionals ++ arg ∷ [] }

-- `none` is a usage error. The flag says that the next argument is the URL of `--server-url`; a URL is
-- normalised before what follows is looked at.
unfoldable pub parse_from : Parsed → Bool → List Text → Option Parsed
unfolding word
parse_from p false [] = some p
parse_from p true [] = none
parse_from p true (value ∷ rest) = elim (normalize_url value) [
  | none ↦ none
  | some url ↦ parse_from (set_url url p) false rest
]
parse_from p false (arg ∷ rest) = elim (word arg) [
  | json_flag ↦ parse_from (set_json p) false rest
  | url_of value ↦ elim (normalize_url value) [
    | none ↦ none
    | some url ↦ parse_from (set_url url p) false rest
  ]
  | url_flag ↦ parse_from p true rest
  | unknown_flag ↦ none
  | positional ↦ parse_from (push arg p) false rest
]

unfoldable pub parse : List Text → Option Parsed
unfolding parse_from
parse args = parse_from (record { positionals = []; server_url = none; json = false }) false args
