-- ===== src/Program.antt =====
-- host/src/main.cpp: the files that the guests share, the context of each guest, the threads and the
-- exit status. The texts of its messages are left out.
pub mod SharedFiles
pub mod Shareable
pub mod Threads
pub mod Status
pub mod Crew
mod Tests
use Prim.Native.String.{String}
use Prim.Native.Nat.{◌^◌, ◌%◌}
use kvm_hypervisor.Base.{
  ℕ, zero, suc, ◌+◌, ◌-◌, Bool, true, false, not, Option, none, some, List, [], ◌∷◌, length, ◌==◌,
  if◌then◌else◌,
}
use kvm_hypervisor.Base.Int.{ℤ, pos, negsuc}
use kvm_hypervisor.Protocol.{vm_mode_reader, vm_mode_writer}
use kvm_hypervisor.SharedBuffer.State.{
  SharedBufferState, SharedBufferVmState, initial_state, initial_vm_state,
}
use kvm_hypervisor.SharedBuffer.{abort_shared_buffer}
use kvm_hypervisor.Cli.{CliResult, Config, CliStatus, ok, help, error}
use kvm_hypervisor.FileIo.Host.{Name, HostPath, configured}
use kvm_hypervisor.FileIo.Names.{is_valid_guest_file_name}
use kvm_hypervisor.FileIo.State.{FileState, no_files, find_shared}

-- `std::filesystem::canonical`, which can fail, `is_regular_file` with its error as false, and
-- `filename`, at the time of the start.
pub record Paths : Type 0 where
  pub canonical : String → Option Name
  pub is_regular_file : Name → Bool
  pub filename : String → Name

abbrev pub Files : Type 0
Files = List (Name × HostPath)

-- `emplace` with its `second`: none where the name has an entry.
pub emplace_shared : Name → HostPath → Files → Option Files
emplace_shared name path files = elim (find_shared name files) [
  | none ↦ some ((name, path) ∷ files)
  | some old ↦ none
]

module _ (P : Paths) where
  -- The result, and the map as it then is.
  pub configure_shared_files : List String → Files → Bool × Files
  unfolding emplace_shared
  configure_shared_files [] files = (true, files)
  configure_shared_files (configured_path ∷ rest) files = elim (P.canonical configured_path) [
    | none ↦ (false, files)
    | some path ↦
        if not (P.is_regular_file path)
        then (false, files)
        else if not (is_valid_guest_file_name (P.filename configured_path))
        then (false, files)
        else elim (emplace_shared (P.filename configured_path) (configured path) files) [
          | none ↦ (false, files)
          | some files1 ↦ configure_shared_files rest files1
        ]
  ]

-- The members that `main` and the threads keep per guest; `sharedState` is the one of the program.
pub record GuestContext : Type 0 where
  pub id : ℕ
  pub memory_size : ℕ
  pub page_size : ℕ
  pub image_path : String
  pub serial_output_buffer : List ℕ
  pub file_state : FileState
  pub shared_buffer : SharedBufferVmState
  pub completed_successfully : Bool

abbrev pub guest_context : Config → ℕ → String → GuestContext
guest_context config i image = record {
  id = i;
  memory_size = config.memory_size;
  page_size = config.page_size;
  image_path = image;
  serial_output_buffer = [];
  file_state = no_files;
  shared_buffer = initial_vm_state (if i == 0 then vm_mode_writer else vm_mode_reader);
  completed_successfully = false;
}

-- The contexts from number `i` on.
abbrev pub guest_contexts : Config → ℕ → List String → List GuestContext
guest_contexts config i [] = []
guest_contexts config i (image ∷ images) =
    guest_context config i image ∷ guest_contexts config (i + 1) images

-- `guestCount - 1` as a `std::size_t`.
abbrev pub reader_count_of : Config → ℕ
reader_count_of config = (length config.guest_images + 2 ^ 64 - 1) % 2 ^ 64

-- What `pthread_create` and `pthread_join` return for a number, what the threads have made of the
-- shared buffer by then, and for a join whether that guest completed.
pub record Created : Type 0 where
  pub result : ℤ
  pub shared : SharedBufferState

pub record Joined : Type 0 where
  pub result : ℤ
  pub shared : SharedBufferState
  pub completed_successfully : Bool

-- The locals of `main` around its loops, and the shared buffer as it leaves it.
pub record Launch : Type 0 where
  pub contexts : List GuestContext
  pub shared_files : Files
  pub started_threads : ℕ
  pub all_guests_succeeded : Bool
  pub shared : SharedBufferState

abbrev pub is_zero : ℤ → Bool
is_zero (pos n) = n == 0
is_zero (negsuc n) = false

abbrev pub fail : SharedBufferState → Launch → Launch
fail shared l = record l { all_guests_succeeded = false; shared = abort_shared_buffer shared }

-- The loops from number `i` on, with the numbers left.
pub start_threads : (ℕ → Created) → ℕ → ℕ → Launch → Launch
start_threads created i zero l = l
start_threads created i (suc n) l =
    let rest =
      start_threads created (i + 1) n
        (record l { started_threads = l.started_threads + 1; shared = (created i).shared }) in
    if not (is_zero (created i).result) then fail (created i).shared l else rest

abbrev pub join_thread : Joined → Launch → Launch
join_thread joined l =
    if not (is_zero joined.result)
    then fail joined.shared l
    else if not joined.completed_successfully
    then record l { all_guests_succeeded = false; shared = joined.shared }
    else record l { shared = joined.shared }

pub join_threads : (ℕ → Joined) → ℕ → ℕ → Launch → Launch
join_threads joined i zero l = l
join_threads joined i (suc n) l = join_threads joined (i + 1) n (join_thread (joined i) l)

-- EXIT_SUCCESS and EXIT_FAILURE.
pub data ExitStatus : Type 0 where
  exit_success exit_failure : ExitStatus

-- Before the threads are started.
abbrev pub prepared : Config → Files → Launch
prepared config files = record {
  contexts = guest_contexts config 0 config.guest_images;
  shared_files = files;
  started_threads = 0;
  all_guests_succeeded = true;
  shared = initial_state (reader_count_of config);
}

pub launch : (ℕ → Created) → (ℕ → Joined) → Config → Files → Launch
unfolding start_threads join_threads
launch created joined config files =
    let l = start_threads created 0 (length config.guest_images) (prepared config files) in
    join_threads joined 0 l.started_threads l

module _ (P : Paths) where
  pub run_config : (ℕ → Created) → (ℕ → Joined) → Config → ExitStatus × Option Launch
  unfolding launch
  run_config created joined config =
      let (shared_well, files) = configure_shared_files P config.shared_files [] in
      let l = launch created joined config files in
      if not shared_well
      then (exit_failure, none)
      else (if l.all_guests_succeeded then exit_success else exit_failure, some l)

  -- `main` behind the command line: the exit status, and where threads were to start, how it went.
  pub main : (ℕ → Created) → (ℕ → Joined) → CliResult → ExitStatus × Option Launch
  unfolding run_config
  main created joined cli = elim cli.status [
    | help ↦ (exit_success, none)
    | error ↦ (exit_failure, none)
    | ok ↦ run_config created joined cli.config
  ]
