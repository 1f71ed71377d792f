-- ===== src/Cli/Reported.antt =====
-- host/src/cli.cpp: what `parseArguments` prints, by its result.
use Prim.Native.String.{String}
use kvm_hypervisor.Base.{ℕ, zero, suc, ◌≡◌, refl, Option, none, some, List, [], ◌∷◌, length, arith}
use kvm_hypervisor.Cli.{
  ok, help, error, CliStatus, CliResult, Progress, Next, finished, continue, begin, parse_argument,
  parse_loop, parse_arguments, check_required, memory_option, page_option, guest_option,
  file_option, refuse,
}
use kvm_hypervisor.Cli.Messages.{Message, help_text, standard_output, standard_error, stream_of}

-- The usage on the standard output when help was asked for, a message on the standard error for an error, and otherwise
-- nothing.
abbrev pub Fits : CliStatus → Option Message → Type 0
Fits ok none = Unit
Fits ok (some m) = ⊥
Fits help none = ⊥
Fits help (some m) = (m ≡ help_text) × (stream_of m ≡ standard_output)
Fits error none = ⊥
Fits error (some m) = stream_of m ≡ standard_error

abbrev NextFits : Next → Type 0
NextFits (finished status config m) = Fits status (some m)
NextFits (continue p rest) = Unit

memory_option-NextFits : (p : Progress) (rest : List String) → NextFits (memory_option p rest)
unfolding memory_option stream_of
memory_option-NextFits p [] = refl
memory_option-NextFits p (value ∷ rest) = ground arith

page_option-NextFits : (p : Progress) (rest : List String) → NextFits (page_option p rest)
unfolding page_option stream_of
page_option-NextFits p [] = refl
page_option-NextFits p (value ∷ rest) = ground arith

guest_option-NextFits : (p : Progress) (rest : List String) → NextFits (guest_option p rest)
unfolding guest_option stream_of
guest_option-NextFits p rest = ground arith

file_option-NextFits : (p : Progress) (rest : List String) → NextFits (file_option p rest)
unfolding file_option stream_of
file_option-NextFits p rest = ground arith

refuse-NextFits : (p : Progress) (argument : String) → NextFits (refuse p argument)
unfolding refuse stream_of
refuse-NextFits p argument = ground arith

parse_argument-NextFits :
    (p : Progress) (argument : String) (rest : List String)
    → NextFits (parse_argument p argument rest)
unfolding parse_argument stream_of
parse_argument-NextFits p argument rest = ground (
  arith,
  memory_option-NextFits p rest,
  page_option-NextFits p rest,
  guest_option-NextFits p rest,
  file_option-NextFits p rest,
  refuse-NextFits p argument,
)

check_required-Fits : (p : Progress) → Fits (check_required p).status (check_required p).message
unfolding check_required stream_of
check_required-Fits p = ground arith

parse_loop-Fits :
    (fuel : ℕ) (p : Progress) (arguments : List String) (r : CliResult)
    → parse_loop fuel p arguments ≡ some r
    → Fits r.status r.message
unfolding parse_loop
parse_loop-Fits fuel p [] r h = ground (arith, check_required-Fits p)
parse_loop-Fits zero p (argument ∷ rest) r h = cc
parse_loop-Fits (suc fuel) p (argument ∷ rest) r h =
    go (parse_argument p argument rest) (parse_argument-NextFits p argument rest) refl
      (λ p' rest' k. parse_loop-Fits fuel p' rest' r k)
  where
    go :
        (n : Next)
        → NextFits n
        → parse_argument p argument rest ≡ n
        → ((p' : Progress) (rest' : List String)
            → parse_loop fuel p' rest' ≡ some r
            → Fits r.status r.message)
        → Fits r.status r.message
    go (finished status config m) fits e again = ground arith
    go (continue p' rest') fits e again = again p' rest' (ground arith)

-- Of every command line that `parseArguments` takes to its end: where it asked for help the usage was
-- printed on the standard output, where it was refused one of the error messages was printed on the
-- standard error, and where it was accepted nothing was printed.
pub parse_arguments-Fits :
    (arguments : List String) (r : CliResult)
    → parse_arguments arguments ≡ some r
    → Fits r.status r.message
unfolding parse_arguments
parse_arguments-Fits arguments r h = parse_loop-Fits (length arguments) begin arguments r h
