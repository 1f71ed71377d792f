-- ===== src/Cli/Fuel.antt =====
-- host/src/cli.cpp: the loop over the arguments ends.
use Prim.Native.String.{String}
use kvm_hypervisor.Base.{ℕ, zero, suc, ◌≤◌, ◌≡◌, refl, some, List, [], ◌∷◌, length, arith}
use kvm_hypervisor.Cli.{
  CliResult, Progress, Next, finished, continue, begin, after_values, parse_argument, parse_loop,
  parse_arguments, check_required, memory_option, page_option, guest_option, file_option, refuse,
}

length-after_values : (rest : List String) → length (after_values rest) ≤ length rest
unfolding after_values
length-after_values [] = omega arith
length-after_values (value ∷ rest) = ground (arith, length-after_values rest)

-- Going on means going on with fewer arguments.
abbrev Shrinks : ℕ → Next → Type 0
Shrinks n (finished _ _ _) = Unit
Shrinks n (continue _ rest) = length rest ≤ n

memory_option-Shrinks :
    (p : Progress) (rest : List String) → Shrinks (length rest) (memory_option p rest)
unfolding memory_option
memory_option-Shrinks p [] = tt
memory_option-Shrinks p (value ∷ rest) = ground arith

page_option-Shrinks :
    (p : Progress) (rest : List String) → Shrinks (length rest) (page_option p rest)
unfolding page_option
page_option-Shrinks p [] = tt
page_option-Shrinks p (value ∷ rest) = ground arith

guest_option-Shrinks :
    (p : Progress) (rest : List String) → Shrinks (length rest) (guest_option p rest)
unfolding guest_option
guest_option-Shrinks p rest = ground (arith, length-after_values rest)

file_option-Shrinks :
    (p : Progress) (rest : List String) → Shrinks (length rest) (file_option p rest)
unfolding file_option
file_option-Shrinks p rest = ground (arith, length-after_values rest)

refuse-Shrinks : (n : ℕ) (p : Progress) (argument : String) → Shrinks n (refuse p argument)
unfolding refuse
refuse-Shrinks n p argument = ground arith

parse_argument-Shrinks :
    (p : Progress) (argument : String) (rest : List String)
    → Shrinks (length rest) (parse_argument p argument rest)
unfolding parse_argument
parse_argument-Shrinks p argument rest = ground (
  arith,
  memory_option-Shrinks p rest,
  page_option-Shrinks p rest,
  guest_option-Shrinks p rest,
  file_option-Shrinks p rest,
  refuse-Shrinks (length rest) p argument,
)

-- As many rounds as there are arguments are enough, whatever has been read before.
parse_loop_total :
    (fuel : ℕ) (p : Progress) (arguments : List String)
    → length arguments ≤ fuel
    → (r : CliResult) × (parse_loop fuel p arguments ≡ some r)
unfolding parse_loop
parse_loop_total fuel p [] h = (check_required p, refl)
parse_loop_total zero p (argument ∷ rest) h = absurd (omega arith)
parse_loop_total (suc fuel) p (argument ∷ rest) h =
    go (parse_argument p argument rest) refl (parse_argument-Shrinks p argument rest)
      (λ p' rest' k. parse_loop_total fuel p' rest' k)
  where
    go :
        (n : Next)
        → parse_argument p argument rest ≡ n
        → Shrinks (length rest) n
        → ((p' : Progress) (rest' : List String)
            → length rest' ≤ fuel
            → (r : CliResult) × (parse_loop fuel p' rest' ≡ some r))
        → (r : CliResult) × (parse_loop (suc fuel) p (argument ∷ rest) ≡ some r)
    go (finished status config m) e s again =
        (record { status = status; config = config; message = some m }, rw (e, parse_loop))
    go (continue p' rest') e s again =
        let (r, found) = again p' rest' (omega arith) in (r, rw (e, parse_loop) found)

-- Every command line gets a result.
pub parse_arguments_total :
    (arguments : List String) → (r : CliResult) × (parse_arguments arguments ≡ some r)
unfolding parse_arguments
parse_arguments_total arguments = parse_loop_total (length arguments) begin arguments (omega arith)
