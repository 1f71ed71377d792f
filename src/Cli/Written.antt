-- ===== src/Cli/Written.antt =====
-- host/src/cli.cpp: every configuration in range can be written as a command line, which is accepted
-- and gives that configuration.
use Prim.Native.String.{String}
use kvm_hypervisor.Base.{ℕ, suc, ◌*◌, ◌≡◌, refl, ◌∙◌, true, none, some, List, [], ◌∷◌, ◌++◌, arith}
use kvm_hypervisor.Cli.{
  ok, Config, Progress, begin, values, after_values, parse_argument, parse_loop, parse_arguments,
  check_required, memory_option, page_option, guest_option, file_option, parse_memory_value,
  parse_page_value, kib, mib, continue,
}
use kvm_hypervisor.Cli.Accepted.{NoOptions}

-- The sizes as they are written.
pub data MemoryChoice : Type 0 where
  two_mib four_mib eight_mib : MemoryChoice

pub data PageChoice : Type 0 where
  small_pages large_pages : PageChoice

abbrev pub memory_text : MemoryChoice → String
memory_text two_mib = "2"
memory_text four_mib = "4"
memory_text eight_mib = "8"

abbrev pub memory_bytes : MemoryChoice → ℕ
memory_bytes two_mib = 2 * mib
memory_bytes four_mib = 4 * mib
memory_bytes eight_mib = 8 * mib

abbrev pub page_text : PageChoice → String
page_text small_pages = "4"
page_text large_pages = "2"

abbrev pub page_bytes : PageChoice → ℕ
page_bytes small_pages = 4 * kib
page_bytes large_pages = 2 * mib

-- `-f` with its files, or nothing where there are none.
pub file_arguments : List String → List String
file_arguments [] = []
file_arguments (file ∷ files) = "-f" ∷ file ∷ files

pub command_line : MemoryChoice → PageChoice → List String → List String → List String
unfolding file_arguments
command_line m p guests files =
    "-m" ∷ memory_text m ∷ "-p" ∷ page_text p ∷ "-g" ∷ (guests ++ file_arguments files)

values-append : (xs files : List String) → NoOptions xs → values (xs ++ file_arguments files) ≡ xs
unfolding values file_arguments
values-append [] [] plain = refl
values-append [] (file ∷ files) plain = refl
values-append (x ∷ xs) files (here, rest) = ground (arith, values-append xs files rest)

after_values-append :
    (xs files : List String)
    → NoOptions xs
    → after_values (xs ++ file_arguments files) ≡ file_arguments files
unfolding after_values file_arguments
after_values-append [] [] plain = refl
after_values-append [] (file ∷ files) plain = refl
after_values-append (x ∷ xs) files (here, rest) = ground (arith, after_values-append xs files rest)

read_sizes : MemoryChoice → PageChoice → Progress
read_sizes m p = record begin {
  config = record {
    memory_size = memory_bytes m;
    page_size = page_bytes p;
    guest_images = [];
    shared_files = [];
  };
  memory_set = true;
  page_set = true;
}

memory_argument :
    (m : MemoryChoice) (rest : List String)
    → parse_argument begin "-m" (memory_text m ∷ rest)
      ≡ continue
          (record begin {
            config = record begin.config { memory_size = memory_bytes m };
            memory_set = true;
          })
          rest
unfolding parse_argument memory_option parse_memory_value
memory_argument two_mib rest = refl
memory_argument four_mib rest = refl
memory_argument eight_mib rest = refl

page_argument :
    (m : MemoryChoice) (p : PageChoice) (rest : List String)
    → parse_argument
        (record begin {
          config = record begin.config { memory_size = memory_bytes m };
          memory_set = true;
        })
        "-p"
        (page_text p ∷ rest)
      ≡ continue (read_sizes m p) rest
unfolding parse_argument page_option parse_page_value read_sizes
page_argument m small_pages rest = refl
page_argument m large_pages rest = refl

read_guests : MemoryChoice → PageChoice → List String → Progress
read_guests m p guests = record (read_sizes m p) {
  config = record (read_sizes m p).config { guest_images = guests };
  guest_set = true;
}

guest_argument :
    (m : MemoryChoice) (p : PageChoice) (guest : String) (guests files : List String)
    → NoOptions (guest ∷ guests)
    → parse_argument (read_sizes m p) "-g" ((guest ∷ guests) ++ file_arguments files)
      ≡ continue (read_guests m p (guest ∷ guests)) (file_arguments files)
unfolding parse_argument guest_option read_sizes read_guests
guest_argument m p guest guests files plain =
    rw
      (values-append (guest ∷ guests) files plain, after_values-append (guest ∷ guests) files plain)

values_all : (xs : List String) → NoOptions xs → values xs ≡ xs
unfolding values
values_all [] plain = refl
values_all (x ∷ xs) (here, rest) = ground (arith, values_all xs rest)

after_values_all : (xs : List String) → NoOptions xs → after_values xs ≡ []
unfolding after_values
after_values_all [] plain = refl
after_values_all (x ∷ xs) (here, rest) = ground (arith, after_values_all xs rest)

file_argument :
    (m : MemoryChoice) (p : PageChoice) (guests : List String) (file : String) (files : List String)
    → NoOptions (file ∷ files)
    → parse_argument (read_guests m p guests) "-f" (file ∷ files)
      ≡ continue
          (record (read_guests m p guests) {
            config = record (read_guests m p guests).config { shared_files = file ∷ files };
            file_set = true;
          })
          []
unfolding parse_argument file_option read_guests read_sizes
file_argument m p guests file files plain =
    rw (values_all (file ∷ files) plain, after_values_all (file ∷ files) plain)

abbrev pub config_of : MemoryChoice → PageChoice → List String → List String → Config
config_of m p guests files = record {
  memory_size = memory_bytes m;
  page_size = page_bytes p;
  guest_images = guests;
  shared_files = files;
}

file_rounds :
    (fuel : ℕ) (m : MemoryChoice) (p : PageChoice) (guest : String) (guests files : List String)
    → NoOptions files
    → parse_loop (suc fuel) (read_guests m p (guest ∷ guests)) (file_arguments files)
      ≡ some (record { status = ok; config = config_of m p (guest ∷ guests) files; message = none })
unfolding parse_loop file_arguments check_required read_guests read_sizes
file_rounds fuel m p guest guests [] plain = refl
file_rounds fuel m p guest guests (file ∷ files) plain =
    rw (file_argument m p (guest ∷ guests) file files plain, parse_loop)

round :
    (fuel : ℕ) (p p' : Progress) (argument : String) (rest rest' : List String)
    → parse_argument p argument rest ≡ continue p' rest'
    → parse_loop (suc fuel) p (argument ∷ rest) ≡ parse_loop fuel p' rest'
unfolding parse_loop
round fuel p p' argument rest rest' e = rw (e, parse_loop)

-- Any sizes on offer, any guest images, one at least, and any shared files, none of them beginning
-- with a dash, can be asked for, and are what the program then runs with.
pub parse_arguments-command_line :
    (m : MemoryChoice) (p : PageChoice) (guest : String) (guests files : List String)
    → NoOptions (guest ∷ guests)
    → NoOptions files
    → parse_arguments (command_line m p (guest ∷ guests) files)
      ≡ some (record { status = ok; config = config_of m p (guest ∷ guests) files; message = none })
unfolding parse_arguments command_line
parse_arguments-command_line m p guest guests files plain plain' =
    round _ _ _ _ _ _ (memory_argument m _)
    ∙ round _ _ _ _ _ _ (page_argument m p _)
    ∙ round _ _ _ _ _ _ (guest_argument m p guest guests files plain)
    ∙ file_rounds _ m p guest guests files plain'
