-- ===== src/SharedBuffer/Progress.antt =====
-- host/src/shared_buffer.cpp: while the writer waits, a reader can go on, in every state that the VMs
-- can reach while readers acknowledge only rounds that they began.
use kvm_hypervisor.Base.{ℕ, ◌+◌, ◌≤◌, ◌<◌, ◌≡◌, ◌≢◌, ◌⊎◌, true, false, inc64}
use kvm_hypervisor.Base.Memory.{Memory, read_le}
use kvm_hypervisor.SharedBuffer.State.{SharedBufferState, SharedBufferVmState, Buffers, returned}
use kvm_hypervisor.SharedBuffer.{begin_reader_round, read_shared_byte, finish_reader_round}
use kvm_hypervisor.SharedBuffer.Moves.{Moves}
use kvm_hypervisor.SharedBuffer.System.{System, view, put_back}
use kvm_hypervisor.SharedBuffer.Acknowledged.{has_acknowledged}
use kvm_hypervisor.SharedBuffer.Agreement.{IsReading}

-- A round that a VM has begun and not acknowledged is the current one, and the VM has not gone past
-- its size.
abbrev IsCurrent : SharedBufferState → SharedBufferVmState → Type 0
IsCurrent s v =
    v.read_completed ≡ false
    → v.active_read_generation ≢ 0
    → (v.active_read_generation ≡ s.generation) × (v.read_offset ≤ s.size)

-- Every reader's open round is the current one.
abbrev AreCurrent : ℕ → System → Type 0
AreCurrent n s = (i : ℕ) → 0 < i → i ≤ n → IsCurrent s.shared (s.vms i)

-- A reader's request for the round is accepted, and the reader is then at work on it.
abbrev pub CanBegin : System → ℕ → Type 0
CanBegin s i =
    (data_at : ℕ) (area : Memory)
    → (b : Buffers) × (begin_reader_round data_at (view s i area) ≡ returned true b)
      × IsReading (put_back s i b) i

-- A reader at work gets its next byte.
abbrev pub CanRead : System → ℕ → Type 0
CanRead s i =
    (data_at : ℕ) (area : Memory)
    → (b : Buffers) × (read_shared_byte data_at (view s i area) ≡ returned true b)
      × (b.own.read_offset ≡ inc64 (s.vms i).read_offset)
      × IsReading (put_back s i b) i

-- A reader at work has its acknowledgement of the size accepted and counted.
abbrev pub CanAcknowledge : System → ℕ → Type 0
CanAcknowledge s i =
    (data_at : ℕ) (area : Memory)
    → read_le 4 area data_at ≡ s.shared.size
    → (b : Buffers) × (finish_reader_round data_at (view s i area) ≡ returned true b)
      × (has_acknowledged s.shared.generation b.own ≡ true)
      × (b.shared.completed_readers ≡ s.shared.completed_readers + 1)

abbrev pub CanGoOn : System → ℕ → Type 0
CanGoOn s i =
    CanBegin s i
    ⊎ (IsReading s i
        × ((((s.vms i).read_offset < s.shared.size) × CanRead s i)
            ⊎ (((s.vms i).read_offset ≡ s.shared.size) × CanAcknowledge s i)))
