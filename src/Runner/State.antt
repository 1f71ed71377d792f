-- ===== src/Runner/State.antt =====
-- host/src/vm_runner.cpp and host/inc/vm_runner.hpp: the thread of one VM, and what it meets.
-- A thread waits for KVM_RUN again and again; what each wait ends with, what the other threads have
-- made of the shared buffer by then and what stands on the standard input is one event.
use Prim.Native.String.{String}
use kvm_hypervisor.Base.{ℕ, Bool, Option, List, [], ◌∷◌, ◌++◌}
use kvm_hypervisor.Base.Memory.{Memory}
use kvm_hypervisor.Exit.{ExitReason, Io}
use kvm_hypervisor.SharedBuffer.State.{SharedBufferState, SharedBufferVmState}
use kvm_hypervisor.FileIo.Host.{Host}
use kvm_hypervisor.FileIo.State.{World}
use kvm_hypervisor.Machine.{Vm}
use kvm_hypervisor.Machine.Kernel.{KernelInterface}

-- What `flushSerialOutput` prints behind the VM's number: the buffered text, and whether the code adds
-- a line feed.
pub record Line : Type 0 where
  pub text : List ℕ
  pub finished_line : Bool

-- What the thread says itself, behind the VM's number: `printError`, `printSystemError` without the
-- number and text of the error, the report of an unexpected port, `printUnexpectedExit` and
-- `printHalt`. The first three go to the standard error.
pub data Message : Type 0 where
  error_message system_error : String → Message
  unexpected_io : Io → Message
  unexpected_exit : ExitReason → Message
  halt_message : Message

-- EINTR, another error, or an exit with its reason, the I/O description, the data of the mapping and
-- the guest's memory.
pub data RunAnswer : Type 0 where
  interrupted run_failed : RunAnswer
  exited : ExitReason → Io → Memory → Memory → RunAnswer

pub record Event : Type 0 where
  pub answer : RunAnswer
  pub shared : SharedBufferState
  pub input : Option ℕ

-- `waiting` stands in `condition.wait` of a shared buffer request; `finished` has what
-- `runVirtualMachine` returns.
pub data Status : Type 0 where
  running : Status
  waiting : Io → Status
  finished : Bool → Status

-- The members of `GuestContext` and `SharedState` that a thread works on, and the locals of
-- `runVirtualMachine`, with the kernel, the serial output and the messages that were printed, each in
-- its order.
pub record Thread (H : Host) (K : KernelInterface) : Type 0 where
  pub serial_output_buffer : List ℕ
  pub printed : List Line
  pub messages : List Message
  pub own : SharedBufferVmState
  pub shared : SharedBufferState
  pub world : World H
  pub vm : Vm
  pub kernel : K.State
  pub interrupt_count : ℕ
  pub request_interrupt_window : Bool
  pub area : Memory

module _ (H : Host) (K : KernelInterface) where
  abbrev pub say : Message → Thread H K → Thread H K
  say m t = record t { messages = t.messages ++ m ∷ [] }

  abbrev pub print_error : String → Thread H K → Thread H K
  print_error message t = say (error_message message) t

  abbrev pub print_system_error : String → Thread H K → Thread H K
  print_system_error operation t = say (system_error operation) t

  abbrev pub print_unexpected_exit : ExitReason → Thread H K → Thread H K
  print_unexpected_exit reason t = say (unexpected_exit reason) t

  abbrev pub print_halt : Thread H K → Thread H K
  print_halt t = say halt_message t
