-- ===== src/Runner/FilesTests.antt =====
-- A guest that opens a shared file, writes to it and halts, on a host that counts its descriptors.
use kvm_hypervisor.Base.{ℕ, ◌+◌, ◌≡◌, refl, sym, ◌∙◌, arith, false, none, [], ◌∷◌, length, ap}
use kvm_hypervisor.Base.Bag.{bag}
use kvm_hypervisor.Base.Memory.{Memory, write_le}
use kvm_hypervisor.Exit.{io_in, io_out, exit_io, exit_hlt}
use kvm_hypervisor.Protocol.{file_io_port}
use kvm_hypervisor.FileIo.Host.{Host, Reply, done, failed, configured}
use kvm_hypervisor.FileIo.State.{no_files}
use kvm_hypervisor.FileIo.Ledger.{HostAccount, opened, given_back, IsHost}
use kvm_hypervisor.FileIo.Port.{handle_file_io}
use kvm_hypervisor.FileIo.Tests.{test_memory, file_name}
use kvm_hypervisor.SharedBuffer.State.{initial_state, initial_vm_state}
use kvm_hypervisor.Startup.{ImageFile, readable, load_guest_image}
use kvm_hypervisor.Machine.{no_handles, vm_init}
use kvm_hypervisor.Machine.TestKernel.{test_kernel, failing_at}
use kvm_hypervisor.Runner.State.{Thread, Event, Status, exited}
use kvm_hypervisor.Runner.Files.{run_guest-account}
use kvm_hypervisor.Runner.{run_guest, boot, run_virtual_machine, run_events, serve}

-- The next descriptor, and the account.
abbrev Counter : Type 0
Counter = ℕ × HostAccount

abbrev counting_host : Host
counting_host = record {
  State = Counter;
  exists = λ s path. false;
  create_directories = λ s path. done s tt;
  copy_file = λ s a b. done s tt;
  add_owner_write = λ s path. done s tt;
  remove = λ s path. s;
  open_file = λ s path flags. done (s.0 + 1, opened s.0 s.1) s.0;
  close = λ s fd. done (s.0, given_back fd s.1) tt;
  read = λ s fd count. done s [];
  write = λ s fd bytes. done s (length bytes);
  lseek = λ s fd offset whence. done s 0;
}

abbrev account_in : Counter → HostAccount
account_in s = s.1

abbrev reply_state : Reply Counter ℕ → Counter
reply_state (failed s) = s
reply_state (done s fd) = s

abbrev reply_value : Reply Counter ℕ → ℕ
reply_value (failed s) = 0
reply_value (done s fd) = fd

counting_host-IsHost : IsHost counting_host account_in
counting_host-IsHost = record {
  open_file_done = λ s s' path flags fd e.
      sym (ap (λ r. account_in (reply_state r)) e) ∙ ap (λ n. opened n s.1) (ap reply_value e);
  open_file_failed = λ s s' path flags e. cc;
  close_lem = λ s fd. refl;
  create_directories_lem = λ s path. refl;
  copy_file_lem = λ s from to. refl;
  add_owner_write_lem = λ s path. refl;
  remove_lem = λ s path. refl;
  read_lem = λ s fd count. refl;
  write_lem = λ s fd bytes. refl;
  lseek_lem = λ s fd offset whence. refl;
}

abbrev starts : Thread counting_host test_kernel
starts = record {
  serial_output_buffer = [];
  printed = [];
  messages = [];
  own = initial_vm_state 0;
  shared = initial_state 1;
  world = record {
    id = 1;
    shared_files = (file_name, configured (b'd' ∷ b'/' ∷ b'a' ∷ [])) ∷ [];
    files = no_files;
    mem = λ a. 0;
    mem_size = 0;
    host = (5, record { held = bag (0 ∷ 1 ∷ 2 ∷ []); wrong = 0 });
  };
  vm = no_handles 0;
  kernel = failing_at 99;
  interrupt_count = 0;
  request_interrupt_window = false;
  area = λ a. 0;
}

-- The request at 64 opens the file, the one at 96 writes two bytes to it.
abbrev with_requests : Memory
with_requests =
    write_le 4 (write_le 4 (write_le 4 (write_le 4 test_memory 96 4) 100 3) 104 40) 108 2

abbrev asks : ℕ → Event
asks at = record {
  answer =
      exited exit_io
        (record {
          direction = io_out;
          size = 4;
          port = file_io_port;
          count = 1;
          data_offset = 0x1000;
        })
        (write_le 4 (λ a. 0) 0x1000 at) with_requests;
  shared = initial_state 1;
  input = none;
}

abbrev halts : Event
halts = record {
  answer =
      exited exit_hlt (record { direction = io_in; size = 0; port = 0; count = 0; data_offset = 0 })
        (λ a. 0) (λ a. 0);
  shared = initial_state 1;
  input = none;
}

abbrev image : ImageFile
image = readable 2 (0xeb ∷ 0xfe ∷ [])

abbrev ends : Status × Thread counting_host test_kernel
ends =
    run_guest counting_host test_kernel image 0x20_0000 4096 (asks 64 ∷ asks 96 ∷ halts ∷ [])
      (initial_state 1) starts

run_guest-account_example : ends.1.world.host.1 ≡ starts.world.host.1
unfolding run_guest boot vm_init load_guest_image run_virtual_machine run_events serve
    handle_file_io
run_guest-account_example =
    run_guest-account counting_host test_kernel account_in counting_host-IsHost image 0x20_0000 4096
      (asks 64 ∷ asks 96 ∷ halts ∷ []) (initial_state 1) false starts ends.1 refl (omega arith) refl
