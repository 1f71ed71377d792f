-- ===== src/Program/Tests.antt =====
-- Runs of the program's start on a small file system, and the theorems at concrete inputs.
use kvm_hypervisor.Base.{ℕ, ◌≡◌, refl, inr, arith, true, some, [], ◌∷◌, ◌==◌, if◌then◌else◌}
use kvm_hypervisor.Base.Int.{pos}
use kvm_hypervisor.Protocol.{vm_mode_reader, vm_mode_writer}
use kvm_hypervisor.SharedBuffer.State.{initial_state}
use kvm_hypervisor.FileIo.Names.{is_valid_guest_file_name}
use kvm_hypervisor.FileIo.State.{find_shared}
use kvm_hypervisor.Cli.Tests.{readme, readme_result, readme_accepted}
use kvm_hypervisor.Program.SharedFiles.{configure_shared_files-AllShared, AllShared, AllNamed}
use kvm_hypervisor.Program.Shareable.{configure_shared_files_iff}
use kvm_hypervisor.Program.Threads.{start_threads-IsStopped, IsStopped}
use kvm_hypervisor.Program.Status.{main_iff}
use kvm_hypervisor.Program.Crew.{prepared-crew, count_mode, AllNumbered}
use kvm_hypervisor.Program.{
  Paths, Created, Joined, start_threads, prepared, main, exit_success, configure_shared_files,
}

-- Every path is that of the regular file "/s", with the name "s.t".
abbrev test_paths : Paths
test_paths = record {
  canonical = λ p. some (b'/' ∷ b's' ∷ []);
  is_regular_file = λ path. true;
  filename = λ p. b's' ∷ b'.' ∷ b't' ∷ [];
}

-- The thread with the given number cannot be made.
abbrev created : ℕ → ℕ → Created
created bad i = record { result = pos (if i == bad then 11 else 0); shared = initial_state 1 }

abbrev joined : ℕ → Joined
joined i = record { result = pos 0; shared = initial_state 1; completed_successfully = true }

configure_shared_files-AllShared_example :
    let files = (configure_shared_files test_paths ("d/s.t" ∷ []) []).1 in
    AllShared test_paths ("d/s.t" ∷ []) files × AllNamed test_paths files ("d/s.t" ∷ [])
unfolding configure_shared_files is_valid_guest_file_name find_shared
configure_shared_files-AllShared_example =
    configure_shared_files-AllShared test_paths ("d/s.t" ∷ []) refl

configure_shared_files_iff_example : (configure_shared_files test_paths ("d/s.t" ∷ []) []).0 ≡ true
unfolding is_valid_guest_file_name
configure_shared_files_iff_example =
    (configure_shared_files_iff test_paths ("d/s.t" ∷ [])).1
      ((b'/' ∷ b's' ∷ [], (refl, refl, refl)), tt, tt)

main_iff_example : (main test_paths (created 9) joined readme_result).0 ≡ exit_success
unfolding is_valid_guest_file_name
main_iff_example = (main_iff test_paths (created 9) joined readme_result).1 (
    inr (
      refl,
      ((b'/' ∷ b's' ∷ [], (refl, refl, refl)), tt, tt),
      (refl, (refl, tt)),
      (refl, refl, (refl, refl, tt)),
    ))

start_threads-IsStopped_example :
    IsStopped (created 1) 0 3 0 (start_threads (created 1) 0 3 (prepared readme_result.config []))
unfolding start_threads
start_threads-IsStopped_example =
    start_threads-IsStopped (created 1) 0 3 (prepared readme_result.config []) refl refl

prepared-crew_example :
    let l = prepared readme_result.config [] in
    AllNumbered 0 l.contexts readme_result.config.guest_images
    × (count_mode vm_mode_writer l.contexts ≡ 1)
    × (count_mode vm_mode_reader l.contexts ≡ l.shared.reader_count)
prepared-crew_example = prepared-crew readme readme_result [] readme_accepted refl (omega arith)
