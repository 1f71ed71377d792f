-- ===== src/Runner.antt =====
-- host/src/vm_runner.cpp: the thread that makes a virtual machine, runs it and serves its exits. The
-- loop takes one event at a time; a list of events is one run, up to where it has got.
pub mod State
pub mod Serial
pub mod Cases
pub mod Handles
pub mod Booted
pub mod Ready
pub mod Worlds
pub mod Files
pub mod Ended
pub mod EndsWell
pub mod Completed
pub mod Text
pub mod Printed
pub mod Reports
pub mod Reported
mod Tests
mod FilesTests
use kvm_hypervisor.Base.{
  ℕ, ◌-◌, Bool, true, false, not, ◌||◌, Option, none, some, List, [], ◌∷◌, ltb, ◌==◌, if◌then◌else◌,
}
use kvm_hypervisor.Base.Int.{magnitude, is_neg}
use kvm_hypervisor.Base.Memory.{Memory}
use kvm_hypervisor.Exit.{
  ExitReason, exit_io, exit_irq_window_open, exit_hlt, exit_shutdown, exit_other, Io,
}
use kvm_hypervisor.Protocol.{file_io_port, shared_buffer_port, shared_buffer_status_port}
use kvm_hypervisor.SharedBuffer.State.{SharedBufferState, Buffers, blocked, returned}
use kvm_hypervisor.SharedBuffer.{handle_shared_buffer_io, abort_shared_buffer}
use kvm_hypervisor.LongMode.{Sregs, setup_long_mode, guest_start_addr}
use kvm_hypervisor.Startup.{ImageFile, load_guest_image}
use kvm_hypervisor.FileIo.Host.{Host}
use kvm_hypervisor.FileIo.Port.{handle_file_io, close_guest_files}
use kvm_hypervisor.Machine.{vm_init, vm_destroy, inject_irq}
use kvm_hypervisor.Machine.Kernel.{KernelInterface, Regs}
use State.{
  Thread, Event, RunAnswer, interrupted, run_failed, exited, Status, running, waiting, finished,
  print_error, print_system_error, print_unexpected_exit, print_halt,
}
use Serial.{flush_serial_output, handle_serial_io}

abbrev pub irq_num : ℕ
irq_num = 32

abbrev pub irq_count : ℕ
irq_count = 2

module _ (H : Host) (K : KernelInterface) where
  -- `vm_destroy` and the return.
  pub stop : Bool → Thread H K → Status × Thread H K
  stop result t =
      let (vm, kernel) = vm_destroy K t.vm t.kernel in
      (finished result, record t { vm = vm; kernel = kernel })

  -- Behind the handler of an I/O exit.
  pub after_io : Bool → Thread H K → Status × Thread H K
  unfolding stop
  after_io handled t =
      if not handled
      then stop false
          (print_error H K "Failed to handle an I/O exit" (flush_serial_output H K true t))
      else (running, t)

  abbrev pub mapping_size : Thread H K → ℕ
  mapping_size t = magnitude t.vm.run_mmap_size

  abbrev pub buffers_of : Thread H K → Buffers
  buffers_of t = record { shared = t.shared; own = t.own; area = t.area }

  pub serve_file : Io → Thread H K → Status × Thread H K
  unfolding after_io
  serve_file io t = elim (handle_file_io H io (mapping_size t) t.area t.world) [
    | none ↦ after_io false t
    | some (world, area) ↦ after_io true (record t { world = world; area = area })
  ]

  pub serve_shared : Io → Thread H K → Status × Thread H K
  unfolding after_io
  serve_shared io t = elim (handle_shared_buffer_io io (mapping_size t) (buffers_of t)) [
    | blocked ↦ (waiting io, t)
    | returned handled b ↦
        after_io handled (record t { shared = b.shared; own = b.own; area = b.area })
  ]

  pub serve_serial : Io → Option ℕ → Thread H K → Status × Thread H K
  unfolding after_io
  serve_serial io input t =
      let (t1, handled) = handle_serial_io H K io (mapping_size t) input t in after_io handled t1

  -- The handler by the port.
  pub serve_io : Io → Option ℕ → Thread H K → Status × Thread H K
  unfolding serve_file serve_shared serve_serial
  serve_io io input t =
      if io.port == file_io_port
      then serve_file io t
      else if io.port == shared_buffer_port || io.port == shared_buffer_status_port
      then serve_shared io t
      else serve_serial io input t

  abbrev pub with_window : Thread H K → Thread H K
  with_window t = record t { request_interrupt_window = ltb 0 t.interrupt_count }

  pub inject : Thread H K → Status × Thread H K
  unfolding stop
  inject t =
      let (kernel, injected) = inject_irq K t.vm irq_num t.kernel in
      let t1 = record t { kernel = kernel } in
      if not injected
      then stop false (print_error H K "Failed to inject an interrupt" t1)
      else (running, with_window (record t1 { interrupt_count = t.interrupt_count - 1 }))

  pub serve_window : Thread H K → Status × Thread H K
  unfolding inject
  serve_window t = if ltb 0 t.interrupt_count then inject t else (running, with_window t)

  pub serve_halt : Thread H K → Status × Thread H K
  unfolding stop
  serve_halt t =
      let t1 = flush_serial_output H K true t in
      if not t.own.transfer_completed
      then stop false (print_error H K "VM halted before completing the shared buffer transfer" t1)
      else stop true (print_halt H K t1)

  -- The switch over the reason of the exit.
  pub serve_exit : ExitReason → Io → Option ℕ → Thread H K → Status × Thread H K
  unfolding serve_io serve_window serve_halt stop
  serve_exit exit_io io input t = serve_io io input t
  serve_exit exit_irq_window_open io input t = serve_window t
  serve_exit exit_hlt io input t = serve_halt t
  serve_exit exit_shutdown io input t =
      stop false (print_unexpected_exit H K exit_shutdown (flush_serial_output H K true t))
  serve_exit (exit_other n) io input t =
      stop false (print_unexpected_exit H K (exit_other n) (flush_serial_output H K true t))

  abbrev pub with_memory : Memory → Memory → Thread H K → Thread H K
  with_memory area mem t = record t { area = area; world = record t.world { mem = mem } }

  pub serve_answer : RunAnswer → Option ℕ → Thread H K → Status × Thread H K
  unfolding serve_exit stop
  serve_answer interrupted input t = (running, t)
  serve_answer run_failed input t = stop false (print_system_error H K "KVM_RUN" t)
  serve_answer (exited reason io area mem) input t =
      serve_exit reason io input (with_memory area mem t)

  -- One round of the loop, or one more look at the predicate of a wait.
  pub serve : Status → Event → Thread H K → Status × Thread H K
  unfolding serve_answer serve_shared
  serve running e t = serve_answer e.answer e.input (record t { shared = e.shared })
  serve (waiting io) e t = serve_shared io (record t { shared = e.shared })
  serve (finished result) e t = (finished result, t)

  pub run_events : List Event → Status → Thread H K → Status × Thread H K
  run_events [] status t = (status, t)
  run_events (e ∷ events) status t =
      let (status1, t1) = serve status e t in run_events events status1 t1

  -- `runVirtualMachine` before its loop, each step with those after it.
  pub set_registers : Thread H K → Status × Thread H K
  unfolding stop
  set_registers t =
      let (kernel, result) =
        K.set_regs t.kernel t.vm.vcpu_fd
          (record { rflags = 2; rip = guest_start_addr; rsp = t.vm.mem_size }) in
      let t1 = record t { kernel = kernel } in
      if is_neg result
      then stop false (print_system_error H K "KVM_SET_REGS" t1)
      else (running, with_window t1)

  pub load_image : ImageFile → Thread H K → Status × Thread H K
  unfolding set_registers stop
  load_image image t =
      let (mem, loaded) = load_guest_image image t.vm.mem_size guest_start_addr t.world.mem in
      let t1 = record t { world = record t.world { mem = mem } } in
      if not loaded
      then stop false (print_error H K "Failed to load guest image" t1)
      else set_registers t1

  pub set_long_mode : ImageFile → ℕ → Sregs → Thread H K → Status × Thread H K
  unfolding load_image stop
  set_long_mode image page_size sregs t =
      let (mem, sregs1) = setup_long_mode t.vm.mem_size page_size t.world.mem sregs in
      let (kernel, result) = K.set_sregs t.kernel t.vm.vcpu_fd sregs1 in
      let t1 = record t { kernel = kernel; world = record t.world { mem = mem } } in
      if is_neg result
      then stop false (print_system_error H K "KVM_SET_SREGS" t1)
      else load_image image t1

  pub get_registers : ImageFile → ℕ → Thread H K → Status × Thread H K
  unfolding set_long_mode stop
  get_registers image page_size t =
      let (kernel, result, sregs) = K.get_sregs t.kernel t.vm.vcpu_fd in
      let t1 = record t { kernel = kernel } in
      if is_neg result
      then stop false (print_system_error H K "KVM_GET_SREGS" t1)
      else set_long_mode image page_size sregs t1

  -- Guest memory is a fresh anonymous mapping, which reads as zero.
  abbrev pub fresh : ℕ → Thread H K → Thread H K
  fresh memory_size t = record t {
    world = record t.world { mem = λ a. 0; mem_size = memory_size };
    interrupt_count = irq_count;
  }

  pub boot : ImageFile → ℕ → ℕ → Thread H K → Status × Thread H K
  unfolding get_registers stop
  boot image memory_size page_size t =
      let (good, vm, kernel) = vm_init K memory_size t.kernel in
      let t1 = record (fresh memory_size t) { vm = vm; kernel = kernel } in
      if not good
      then stop false (print_error H K "Failed to initialize the virtual machine" t1)
      else get_registers image page_size t1

  pub run_virtual_machine : ImageFile → ℕ → ℕ → List Event → Thread H K → Status × Thread H K
  unfolding boot
  run_virtual_machine image memory_size page_size events t =
      let (status, t1) = boot image memory_size page_size t in run_events events status t1

  -- `runGuest` once the machine has ended, with the shared state that it finds.
  pub finish_guest : SharedBufferState → Bool → Thread H K → Thread H K
  finish_guest shared completed t = record t {
    shared = if not completed then abort_shared_buffer shared else shared;
    world = close_guest_files H t.world;
  }

  -- A run that has not come to the end of its machine stays where it is.
  abbrev pub end_guest : SharedBufferState → Status × Thread H K → Status × Thread H K
  end_guest at_end (running, t) = (running, t)
  end_guest at_end (waiting io, t) = (waiting io, t)
  end_guest at_end (finished completed, t) = (finished completed, finish_guest at_end completed t)

  pub run_guest :
      ImageFile → ℕ → ℕ → List Event → SharedBufferState → Thread H K → Status × Thread H K
  unfolding run_virtual_machine finish_guest
  run_guest image memory_size page_size events at_end t =
      end_guest at_end (run_virtual_machine image memory_size page_size events t)
