-- ===== src/Runner/Tests.antt =====
-- Runs of a reader's thread on a small host and a small kernel, and the theorems there.
use kvm_hypervisor.Base.{ℕ, ◌+◌, ◌≡◌, refl, true, false, none, List, [], ◌∷◌, ◌++◌}
use kvm_hypervisor.Base.Memory.{store, read_le}
use kvm_hypervisor.Exit.{Io, io_in, io_out, exit_io, exit_irq_window_open, exit_hlt}
use kvm_hypervisor.SharedBuffer.State.{
  SharedBufferState, SharedBufferVmState, initial_state, initial_vm_state,
}
use kvm_hypervisor.Startup.{ImageFile, readable, load_guest_image}
use kvm_hypervisor.FileIo.State.{no_files}
use kvm_hypervisor.FileIo.Tests.{test_host}
use kvm_hypervisor.SharedBuffer.{
  handle_shared_buffer_io, dispatch, get_io_data, finish_reader_round,
}
use kvm_hypervisor.Machine.{no_handles, vm_init, inject_irq}
use kvm_hypervisor.Machine.TestKernel.{test_kernel, test_kernel-IsKernel, failing_at, account_of}
use kvm_hypervisor.Runner.State.{Thread, Event, interrupted, exited, Status, halt_message}
use kvm_hypervisor.Cli.Tests.{readme, readme_result, readme_accepted}
use kvm_hypervisor.Runner.Reported.{run_virtual_machine-IsReported}
use kvm_hypervisor.Runner.Ready.{boot-IsReady, IsReady}
use kvm_hypervisor.Runner.Ended.{run_guest-IsEnded, run_virtual_machine-interrupts, IsEnded}
use kvm_hypervisor.Runner.Completed.{run_virtual_machine-HasTransferEnd, HasTransferEnd}
use kvm_hypervisor.Runner.Text.{printed_text}
use kvm_hypervisor.Runner.Printed.{run_virtual_machine-keeps_text, run_virtual_machine-prints}
use kvm_hypervisor.Runner.Serial.{handle_serial_io}
use kvm_hypervisor.Runner.{boot, run_virtual_machine, run_guest, run_events, serve}

-- A published round of two bytes, and a reader that has taken them.
abbrev published : SharedBufferState
published = record (initial_state 1) { size = 2; generation = 1; data_ready = true }

abbrev reader : SharedBufferVmState
reader = record (initial_vm_state 0) {
  read_offset = 2;
  active_read_generation = 1;
  mode_delivered = true;
}

abbrev image : ImageFile
image = readable 2 (0xeb ∷ 0xfe ∷ [])

-- A thread before its run, in a process in which the given call of the kernel fails.
abbrev thread : ℕ → Thread test_host test_kernel
thread n = record {
  serial_output_buffer = [];
  printed = [];
  messages = [];
  own = reader;
  shared = published;
  world = record {
    id = 1;
    shared_files = [];
    files = no_files;
    mem = λ a. 0;
    mem_size = 0;
    host = [];
  };
  vm = no_handles 0;
  kernel = failing_at n;
  interrupt_count = 0;
  request_interrupt_window = false;
  area = λ a. 0;
}

abbrev says : ℕ → Event
says c = record {
  answer =
      exited exit_io
        (record { direction = io_out; size = 1; port = 0xE9; count = 1; data_offset = 0x1000 })
        (store (λ a. 0) 0x1000 c) (λ a. 0);
  shared = published;
  input = none;
}

abbrev acknowledges : Event
acknowledges = record {
  answer =
      exited exit_io
        (record { direction = io_out; size = 4; port = 0x520; count = 1; data_offset = 0x1000 })
        (store (λ a. 0) 0x1000 2) (λ a. 0);
  shared = published;
  input = none;
}

abbrev plain : Io
plain = record { direction = io_in; size = 0; port = 0; count = 0; data_offset = 0 }

abbrev halts : Event
halts = record {
  answer = exited exit_hlt plain (λ a. 0) (λ a. 0);
  shared = published;
  input = none;
}

abbrev opens_window : Event
opens_window = record halts { answer = exited exit_irq_window_open plain (λ a. 0) (λ a. 0) }

abbrev good_run : List Event
good_run =
    says b'H'
    ∷ opens_window
    ∷ record halts { answer = interrupted }
    ∷ acknowledges
    ∷ says b'i'
    ∷ opens_window
    ∷ opens_window
    ∷ halts
    ∷ []

abbrev good_end : Status × Thread test_host test_kernel
good_end = run_virtual_machine test_host test_kernel image 0x20_0000 4096 good_run (thread 0)

run_virtual_machine-prints_example : printed_text good_end.1.printed ≡ b'H' ∷ b'i' ∷ []
unfolding boot vm_init load_guest_image run_virtual_machine run_events serve handle_serial_io
    handle_shared_buffer_io dispatch get_io_data finish_reader_round inject_irq read_le printed_text
run_virtual_machine-prints_example =
    run_virtual_machine-prints test_host test_kernel image 0x20_0000 4096 good_run (thread 0)
      good_end.1 refl

run_virtual_machine-keeps_text_example :
    printed_text good_end.1.printed ++ good_end.1.serial_output_buffer ≡ b'H' ∷ b'i' ∷ []
unfolding boot vm_init load_guest_image run_virtual_machine run_events serve handle_serial_io
    handle_shared_buffer_io dispatch get_io_data finish_reader_round inject_irq read_le printed_text
run_virtual_machine-keeps_text_example =
    run_virtual_machine-keeps_text test_host test_kernel image 0x20_0000 4096 good_run (thread 0)

run_virtual_machine-IsReported_example : good_end.1.messages ≡ halt_message ∷ []
unfolding boot vm_init load_guest_image run_virtual_machine run_events serve handle_serial_io
    handle_shared_buffer_io dispatch get_io_data finish_reader_round inject_irq read_le
run_virtual_machine-IsReported_example =
    run_virtual_machine-IsReported test_host test_kernel image 0x20_0000 4096 good_run (thread 0)

run_virtual_machine-HasTransferEnd_example :
    let (booted, t1) = boot test_host test_kernel image 0x20_0000 4096 (thread 0) in
    HasTransferEnd test_host test_kernel good_run booted t1
unfolding boot vm_init load_guest_image run_virtual_machine run_events serve handle_serial_io
    handle_shared_buffer_io dispatch get_io_data finish_reader_round inject_irq read_le
run_virtual_machine-HasTransferEnd_example =
    run_virtual_machine-HasTransferEnd test_host test_kernel image 0x20_0000 4096 good_run
      (thread 0) good_end.1 refl refl

run_virtual_machine-interrupts_example :
    (account_of good_end.1.kernel).interrupts + good_end.1.interrupt_count ≡ 2
run_virtual_machine-interrupts_example =
    run_virtual_machine-interrupts test_host test_kernel account_of test_kernel-IsKernel image
      0x20_0000 4096 good_run (thread 0)

-- The mapping of `kvm_run` fails.
abbrev bad_end : Status × Thread test_host test_kernel
bad_end = run_guest test_host test_kernel image 0x20_0000 4096 good_run published (thread 10)

run_guest-IsEnded_example :
    IsEnded test_host test_kernel account_of test_kernel-IsKernel
      (failing_at 10).account
      published
      false
      bad_end.1
unfolding run_guest boot vm_init run_events serve
run_guest-IsEnded_example =
    run_guest-IsEnded test_host test_kernel account_of test_kernel-IsKernel image 0x20_0000 4096
      good_run published false (thread 10) bad_end.1 refl

boot-IsReady_example :
    IsReady test_host test_kernel image readme_result.config.memory_size
      (boot test_host test_kernel image readme_result.config.memory_size
        readme_result.config.page_size
        (thread 99)).1
unfolding boot vm_init load_guest_image
boot-IsReady_example =
    boot-IsReady test_host test_kernel readme readme_result image (thread 99) readme_accepted refl
      refl
