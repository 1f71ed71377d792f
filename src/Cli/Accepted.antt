-- ===== src/Cli/Accepted.antt =====
-- host/src/cli.cpp: what holds of every configuration that is accepted.
use Prim.Native.String.{String}
use kvm_hypervisor.Base.{
  ℕ, zero, suc, ◌*◌, ◌≡◌, ◌≢◌, ◌⊎◌, refl, true, false, some, List, [], ◌∷◌, length, arith,
}
use kvm_hypervisor.Cli.{
  ok, Config, CliResult, Progress, Next, finished, continue, begin, values, is_option,
  parse_argument, parse_loop, parse_arguments, check_required, memory_option, page_option,
  guest_option, file_option, refuse, parse_memory_value, parse_page_value, kib, mib,
}

-- No text of the list begins with a dash.
abbrev pub NoOptions : List String → Type 0
NoOptions [] = Unit
NoOptions (x ∷ xs) = (is_option x ≡ false) × NoOptions xs

values-NoOptions : (rest : List String) → NoOptions (values rest)
unfolding values
values-NoOptions [] = tt
values-NoOptions (value ∷ rest) = ground (arith, values-NoOptions rest)

pub record IsAccepted (c : Config) : Type 0 where
  pub memory_known :
      (c.memory_size ≡ 2 * mib) ⊎ (c.memory_size ≡ 4 * mib) ⊎ (c.memory_size ≡ 8 * mib)
  pub page_known : (c.page_size ≡ 4 * kib) ⊎ (c.page_size ≡ 2 * mib)
  pub some_guest : c.guest_images ≢ []
  pub guests_plain : NoOptions c.guest_images
  pub files_plain : NoOptions c.shared_files

-- What the flags say of the configuration read so far.
record IsRead (p : Progress) : Type 0 where
  memory_read :
      p.memory_set ≡ true
      → (p.config.memory_size ≡ 2 * mib)
        ⊎ (p.config.memory_size ≡ 4 * mib)
        ⊎ (p.config.memory_size ≡ 8 * mib)
  page_read : p.page_set ≡ true → (p.config.page_size ≡ 4 * kib) ⊎ (p.config.page_size ≡ 2 * mib)
  guests_read : p.guest_set ≡ true → p.config.guest_images ≢ []
  guests_none : p.guest_set ≡ false → p.config.guest_images ≡ []
  files_none : p.file_set ≡ false → p.config.shared_files ≡ []
  guests_named : NoOptions p.config.guest_images
  files_named : NoOptions p.config.shared_files

abbrev Fine : Next → Type 0
Fine (finished status _ _) = status ≢ ok
Fine (continue p _) = IsRead p

memory_option-Fine : (p : Progress) (rest : List String) → IsRead p → Fine (memory_option p rest)
unfolding memory_option parse_memory_value
memory_option-Fine p [] v = ground arith
memory_option-Fine p (value ∷ rest) v = ground arith

page_option-Fine : (p : Progress) (rest : List String) → IsRead p → Fine (page_option p rest)
unfolding page_option parse_page_value
page_option-Fine p [] v = ground arith
page_option-Fine p (value ∷ rest) v = ground arith

guest_option-Fine : (p : Progress) (rest : List String) → IsRead p → Fine (guest_option p rest)
unfolding guest_option
guest_option-Fine p rest v = ground (arith, values-NoOptions rest)

file_option-Fine : (p : Progress) (rest : List String) → IsRead p → Fine (file_option p rest)
unfolding file_option
file_option-Fine p rest v = ground (arith, values-NoOptions rest)

refuse-Fine : (p : Progress) (argument : String) → Fine (refuse p argument)
unfolding refuse
refuse-Fine p argument = ground arith

parse_argument-Fine :
    (p : Progress) (argument : String) (rest : List String)
    → IsRead p
    → Fine (parse_argument p argument rest)
unfolding parse_argument
parse_argument-Fine p argument rest v = ground (
  arith,
  memory_option-Fine p rest v,
  page_option-Fine p rest v,
  guest_option-Fine p rest v,
  file_option-Fine p rest v,
  refuse-Fine p argument,
)

check_required-IsAccepted :
    (p : Progress)
    → IsRead p
    → (check_required p).status ≡ ok
    → IsAccepted (check_required p).config
unfolding check_required
check_required-IsAccepted p v e = ground arith

parse_loop-IsAccepted :
    (fuel : ℕ) (p : Progress) (arguments : List String) (r : CliResult)
    → IsRead p
    → parse_loop fuel p arguments ≡ some r
    → r.status ≡ ok
    → IsAccepted r.config
unfolding parse_loop
parse_loop-IsAccepted fuel p [] r v e good = ground (arith, check_required-IsAccepted p v)
parse_loop-IsAccepted zero p (argument ∷ rest) r v e good = cc
parse_loop-IsAccepted (suc fuel) p (argument ∷ rest) r v e good =
    go (parse_argument p argument rest) refl (parse_argument-Fine p argument rest v)
      (λ p' rest' v' e'. parse_loop-IsAccepted fuel p' rest' r v' e' good)
  where
    go :
        (n : Next)
        → parse_argument p argument rest ≡ n
        → Fine n
        → ((p' : Progress) (rest' : List String)
            → IsRead p'
            → parse_loop fuel p' rest' ≡ some r
            → IsAccepted r.config)
        → IsAccepted r.config
    go (finished status config m) n f again = ground arith
    go (continue p' rest') n f again = again p' rest' f (rw (n, parse_loop) at e)

begin-IsRead : IsRead begin
begin-IsRead = ground arith

-- An accepted command line gives 2, 4 or 8 MiB of memory, pages of 4 KiB or 2 MiB, and at least one
-- guest image; no image and no shared file is a text that begins with a dash.
pub parse_arguments-IsAccepted :
    (arguments : List String) (r : CliResult)
    → parse_arguments arguments ≡ some r
    → r.status ≡ ok
    → IsAccepted r.config
unfolding parse_arguments
parse_arguments-IsAccepted arguments r e good =
    parse_loop-IsAccepted (length arguments) begin arguments r begin-IsRead e good
