-- ===== src/Guest/Upload.antt =====
-- guest/src/interrupts.c on host/src/shared_buffer.cpp: what the writer's loop publishes.
use Prim.Native.Nat.{◌^◌}
use kvm_hypervisor.Base.{ℕ, ◌+◌, ◌≤◌, ◌<◌, ◌≡◌, true}
use kvm_hypervisor.Base.Memory.{Memory, read_le}
use kvm_hypervisor.Protocol.{shared_buffer_port, vm_mode_writer}
use kvm_hypervisor.SharedBuffer.State.{SharedBufferState, SharedBufferVmState, Buffers, returned}
use kvm_hypervisor.SharedBuffer.{handle_shared_buffer_io}
use kvm_hypervisor.Guest.Ports.{Ports}
use kvm_hypervisor.Guest.Sent.{byte_out, word_out}

-- A VM that has been told to be the writer.
abbrev pub IsWriter : SharedBufferVmState → Type 0
IsWriter v = (v.mode_delivered ≡ true) × (v.mode ≡ vm_mode_writer)

-- That a writer's OUT of a byte or a word to the port of the buffer is an exit which `handleSharedBufferIo`
-- serves, with the datum in the mapping, and that it leaves the guest's memory alone.
pub record IsShared (P : Ports) (shared : P.State → SharedBufferState)
    (own : P.State → SharedBufferVmState) (data_at mapping_size : ℕ) : Type 0 where
  pub inside : data_at + 4 ≤ mapping_size
  pub outb_mem : (v : ℕ) (s : P.State) → P.mem (P.outb shared_buffer_port v s) ≡ P.mem s
  pub outl_mem : (v : ℕ) (s : P.State) → P.mem (P.outl shared_buffer_port v s) ≡ P.mem s
  pub outb_lem :
      (v : ℕ) (s : P.State) (area : Memory) (b : Buffers)
      → IsWriter (own s)
      → area data_at ≡ v
      → handle_shared_buffer_io
          (byte_out data_at)
          mapping_size
          (record { shared = shared s; own = own s; area = area })
        ≡ returned true b
      → (shared (P.outb shared_buffer_port v s) ≡ b.shared)
        × (own (P.outb shared_buffer_port v s) ≡ b.own)
  pub outl_lem :
      (v : ℕ) (s : P.State) (area : Memory) (b : Buffers)
      → IsWriter (own s)
      → v < 2 ^ 32
      → read_le 4 area data_at ≡ v
      → handle_shared_buffer_io
          (word_out data_at)
          mapping_size
          (record { shared = shared s; own = own s; area = area })
        ≡ returned true b
      → (shared (P.outl shared_buffer_port v s) ≡ b.shared)
        × (own (P.outl shared_buffer_port v s) ≡ b.own)

module _ (P : Ports) (shared : P.State → SharedBufferState) (own : P.State → SharedBufferVmState)
    (data_at mapping_size : ℕ) (served : IsShared P shared own data_at mapping_size) where
  abbrev pub seen : P.State → Memory → Buffers
  seen s area = record { shared = shared s; own = own s; area = area }
