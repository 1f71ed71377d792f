-- ===== src/Cli.antt =====
-- host/src/cli.cpp and host/inc/cli.hpp: the command line. Arguments are texts. `argv[0]` is in the
-- messages only (Cli/Messages).
pub mod Messages
pub mod Reported
pub mod Fuel
pub mod Accepted
pub mod Written
pub mod Tests
use text.Mathlib.Text.{◌==◌ as str_eq, starts_with}
use kvm_hypervisor.Base.{
  ℕ, zero, suc, ◌*◌, Bool, true, false, not, ◌||◌, Option, none, some, List, [], ◌∷◌, ◌++◌, length,
  if◌then◌else◌,
}
use Prim.Native.String.{String}
use Messages.{
  Message, help_text, memory_error, page_error, guest_error, file_error, unknown_option,
  unexpected_argument,
}

pub data CliStatus : Type 0 where
  ok help error : CliStatus

pub record Config : Type 0 where
  pub memory_size : ℕ
  pub page_size : ℕ
  pub guest_images : List String
  pub shared_files : List String

-- With the message that the call has printed.
pub record CliResult : Type 0 where
  pub status : CliStatus
  pub config : Config
  pub message : Option Message

abbrev pub kib : ℕ
kib = 1024

abbrev pub mib : ℕ
mib = 1024 * kib

pub parse_memory_value : String → Option ℕ
parse_memory_value value =
    if str_eq value "2"
    then some (2 * mib)
    else if str_eq value "4"
    then some (4 * mib)
    else if str_eq value "8"
    then some (8 * mib)
    else none

pub parse_page_value : String → Option ℕ
parse_page_value value =
    if str_eq value "4" then some (4 * kib) else if str_eq value "2" then some (2 * mib) else none

-- The locals of `parseArguments`: the result's configuration, and which options were given.
pub record Progress : Type 0 where
  pub config : Config
  pub memory_set : Bool
  pub page_set : Bool
  pub guest_set : Bool
  pub file_set : Bool

abbrev pub begin : Progress
begin = record {
  config = record { memory_size = 0; page_size = 0; guest_images = []; shared_files = [] };
  memory_set = false;
  page_set = false;
  guest_set = false;
  file_set = false;
}

-- `!value.empty() && value.front() == '-'`
abbrev pub is_option : String → Bool
is_option value = starts_with value "-"

-- The inner loops of `-g` and `-f`: the values up to the next option, and the arguments from there.
pub values : List String → List String
values [] = []
values (value ∷ rest) = let more = values rest in if is_option value then [] else value ∷ more

pub after_values : List String → List String
after_values [] = []
after_values (value ∷ rest) =
    let more = after_values rest in if is_option value then value ∷ rest else more

-- What one round of the loop does: return a result, or go on behind the arguments it used.
pub data Next : Type 0 where
  finished : CliStatus → Config → Message → Next
  continue : Progress → List String → Next

pub memory_option : Progress → List String → Next
memory_option p [] = finished error p.config (
    memory_error (
      if p.memory_set
      then "memory option was specified more than once"
      else "memory option requires a value"))
memory_option p (value ∷ rest) =
    if p.memory_set
    then finished error p.config (memory_error "memory option was specified more than once")
    else elim (parse_memory_value value) [
      | none ↦ finished error p.config (memory_error "memory size must be 2, 4 or 8 MiB")
      | some size ↦
          continue (record p { config = record p.config { memory_size = size }; memory_set = true })
            rest
    ]

pub page_option : Progress → List String → Next
page_option p [] = finished error p.config (
    page_error (
      if p.page_set
      then "page option was specified more than once"
      else "page option requires a value"))
page_option p (value ∷ rest) =
    if p.page_set
    then finished error p.config (page_error "page option was specified more than once")
    else elim (parse_page_value value) [
      | none ↦ finished error p.config (page_error "page size must be 4 KiB or 2 MiB")
      | some size ↦
          continue (record p { config = record p.config { page_size = size }; page_set = true })
            rest
    ]

abbrev is_empty : List String → Bool
is_empty [] = true
is_empty _ = false

pub guest_option : Progress → List String → Next
guest_option p rest =
    let config = record p.config { guest_images = p.config.guest_images ++ values rest } in
    if p.guest_set
    then finished error p.config (guest_error "guest option was specified more than once")
    else if is_empty config.guest_images
    then finished error config (guest_error "guest option requires at least one image")
    else continue (record p { config = config; guest_set = true }) (after_values rest)

pub file_option : Progress → List String → Next
file_option p rest =
    let config = record p.config { shared_files = p.config.shared_files ++ values rest } in
    if p.file_set
    then finished error p.config (file_error "file option was specified more than once")
    else if is_empty config.shared_files
    then finished error config (file_error "file option requires at least one path")
    else continue (record p { config = config; file_set = true }) (after_values rest)

-- An argument that is no option of the program and no value of one.
pub refuse : Progress → String → Next
refuse p argument =
    if is_option argument
    then finished error p.config (unknown_option argument)
    else finished error p.config (unexpected_argument argument)

pub parse_argument : Progress → String → List String → Next
parse_argument p argument rest =
    if str_eq argument "-h" || str_eq argument "--help"
    then finished help p.config help_text
    else if str_eq argument "-m" || str_eq argument "--memory"
    then memory_option p rest
    else if str_eq argument "-p" || str_eq argument "--page"
    then page_option p rest
    else if str_eq argument "-g" || str_eq argument "--guest"
    then guest_option p rest
    else if str_eq argument "-f" || str_eq argument "--file"
    then file_option p rest
    else refuse p argument

abbrev missing : Message → Config → CliResult
missing m config = record { status = error; config = config; message = some m }

-- The tests behind the loop.
pub check_required : Progress → CliResult
check_required p =
    if not p.memory_set
    then missing (memory_error "memory option is required") p.config
    else if not p.page_set
    then missing (page_error "page option is required") p.config
    else if not p.guest_set
    then missing (guest_error "guest option is required") p.config
    else record { status = ok; config = p.config; message = none }

-- The loop, on fuel; `none` when the fuel runs out.
pub parse_loop : ℕ → Progress → List String → Option CliResult
parse_loop fuel p [] = some (check_required p)
parse_loop zero p (argument ∷ rest) = none
parse_loop (suc fuel) p (argument ∷ rest) = elim (parse_argument p argument rest) [
  | finished status config m ↦ some (record { status = status; config = config; message = some m })
  | continue p' rest' ↦ parse_loop fuel p' rest'
]

-- The arguments behind the program's name. Each round uses one at least, so their number is fuel
-- enough.
pub parse_arguments : List String → Option CliResult
parse_arguments arguments = parse_loop (length arguments) begin arguments
