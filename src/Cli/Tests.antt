-- ===== src/Cli/Tests.antt =====
-- Tests of the command line, and its theorems at concrete arguments.
use Prim.Native.String.{String}
use kvm_hypervisor.Base.{◌*◌, ◌≡◌, refl, Option, none, some, List, [], ◌∷◌, take}
use kvm_hypervisor.Cli.{
  ok, help, error, CliResult, parse_arguments, parse_loop, parse_argument, check_required,
  memory_option, page_option, guest_option, file_option, parse_memory_value, parse_page_value,
  values, after_values, mib, CliStatus,
}
use kvm_hypervisor.Cli.Messages.{memory_error, unknown_option, text_of, stream_of, standard_error}
use kvm_hypervisor.Cli.Reported.{parse_arguments-Fits}
use kvm_hypervisor.Cli.Fuel.{parse_arguments_total}
use kvm_hypervisor.Cli.Accepted.{IsAccepted, parse_arguments-IsAccepted}
use kvm_hypervisor.Cli.Written.{
  command_line, parse_arguments-command_line, config_of, four_mib, small_pages,
}

-- The example of README.md.
abbrev pub readme : List String
readme = "-m" ∷ "4" ∷ "-p" ∷ "2" ∷ "-g" ∷ "guest1.img" ∷ "guest2.img" ∷ "-f" ∷ "shared.txt" ∷ []

abbrev pub readme_result : CliResult
readme_result = record {
  status = ok;
  message = none;
  config = record {
    memory_size = 4 * mib;
    page_size = 2 * mib;
    guest_images = "guest1.img" ∷ "guest2.img" ∷ [];
    shared_files = "shared.txt" ∷ [];
  };
}

pub readme_accepted : parse_arguments readme ≡ some readme_result
unfolding parse_arguments parse_loop parse_argument check_required memory_option page_option
    guest_option file_option parse_memory_value parse_page_value values after_values
readme_accepted = refl

abbrev status_of : Option CliResult → Option CliStatus
status_of none = none
status_of (some r) = some r.status

refusals :
    (status_of (parse_arguments ("-m" ∷ "3" ∷ [])) ≡ some error)
    × (status_of (parse_arguments ("-m" ∷ "4" ∷ "-m" ∷ "4" ∷ [])) ≡ some error)
    × (status_of (parse_arguments ("-m" ∷ "4" ∷ "-p" ∷ "4" ∷ "-g" ∷ "-f" ∷ "a" ∷ [])) ≡ some error)
    × (status_of (parse_arguments ("-m" ∷ "4" ∷ "--help" ∷ [])) ≡ some help)
unfolding readme_accepted
refusals = (refl, refl, refl, refl)

abbrev bad_memory : List String
bad_memory = "-m" ∷ "3" ∷ []

abbrev refused : CliResult
refused = record {
  status = error;
  message = some (memory_error "memory size must be 2, 4 or 8 MiB");
  config = record { memory_size = 0; page_size = 0; guest_images = []; shared_files = [] };
}

bad_memory_refused : parse_arguments bad_memory ≡ some refused
unfolding readme_accepted
bad_memory_refused = refl

unknown_printed :
    take 3 (text_of "kvm" (unknown_option "-x")) ≡ "Error: unknown option '" ∷ "-x" ∷ "'\n\n" ∷ []
unfolding text_of
unknown_printed = refl

parse_arguments-Fits_example :
    stream_of (memory_error "memory size must be 2, 4 or 8 MiB") ≡ standard_error
parse_arguments-Fits_example = parse_arguments-Fits bad_memory refused bad_memory_refused

parse_arguments_total_example : (r : CliResult) × (parse_arguments readme ≡ some r)
parse_arguments_total_example = parse_arguments_total readme

parse_arguments-IsAccepted_example : IsAccepted readme_result.config
parse_arguments-IsAccepted_example =
    parse_arguments-IsAccepted readme readme_result readme_accepted refl

parse_arguments-command_line_example :
    parse_arguments (command_line four_mib small_pages ("a.img" ∷ "b.img" ∷ []) ("c.txt" ∷ []))
    ≡ some (record {
      status = ok;
      message = none;
      config = config_of four_mib small_pages ("a.img" ∷ "b.img" ∷ []) ("c.txt" ∷ []);
    })
parse_arguments-command_line_example =
    parse_arguments-command_line four_mib small_pages "a.img" ("b.img" ∷ []) ("c.txt" ∷ [])
      (refl, (refl, tt)) (refl, tt)
