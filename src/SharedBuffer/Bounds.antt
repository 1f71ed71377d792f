-- ===== src/SharedBuffer/Bounds.antt =====
-- host/src/shared_buffer.cpp: the fields of the shared state keep within their bounds, whatever the
-- guests send.
use kvm_hypervisor.Base.{Bool, ℕ, ◌^◌, ◌≤◌, ◌<◌, ◌≡◌, true, false, min, arith, length, length-set}
use kvm_hypervisor.Base.Memory.{IsBytes, read_le-lt-radix}
use kvm_hypervisor.Exit.{Io}
use kvm_hypervisor.Protocol.{buffer_size}
use kvm_hypervisor.SharedBuffer.State.{SharedBufferState, Buffers, returned}
use kvm_hypervisor.SharedBuffer.{
  give_mode, open_round, finish_writer_data, accept_byte, close_round, start_reading, take_byte,
  acknowledge, handle_shared_buffer_io,
}
use kvm_hypervisor.SharedBuffer.Moves.{Moves, handle_returned}

-- The sizes agree with the byte counts, nothing passes its limit, and published data is whole.
pub record IsBounded (s : SharedBufferState) : Type 0 where
  pub capacity : length s.bytes ≡ buffer_size
  pub size_is : s.size ≡ min s.expected_bytes buffer_size
  pub expected_fits : s.expected_bytes < 2 ^ 32
  pub received_le : s.received_bytes ≤ s.expected_bytes
  pub readers_fit : s.reader_count < 2 ^ 64
  pub completed_le : s.completed_readers ≤ s.reader_count
  pub ready_is_whole : s.data_ready ≡ true → s.received_bytes ≡ s.expected_bytes
  pub open_is_partial :
      s.round_in_progress ≡ true → s.data_ready ≡ false → s.received_bytes < s.expected_bytes

-- Every change that a request can make keeps the bounds.
IsBounded-Moves :
    (io : Io) (b : Buffers)
    → IsBytes b.area
    → IsBounded b.shared
    → Moves (λ b'. IsBounded b'.shared) io b
unfolding give_mode open_round finish_writer_data accept_byte close_round start_reading take_byte
    acknowledge
IsBounded-Moves io b bytes v = record {
  refused = v;
  given = λ data_at. v;
  opened = λ data_at w r p. ground (arith, read_le-lt-radix 4 b.area data_at bytes);
  emptied = λ data_at w r. ground arith;
  stored =
      λ value w r d l m. ground (arith, length-set b.shared.bytes b.shared.received_bytes value);
  published =
      λ value w r d l m. ground (arith, length-set b.shared.bytes b.shared.received_bytes value);
  closed = λ data_at w d g c. ground arith;
  started = λ data_at r d l. v;
  taken = λ data_at r g l. v;
  done = λ r port c g o l. ground arith;
}

-- Any request, by either side, in any order, leaves the shared state within its bounds.
pub handle_shared_buffer_io-IsBounded :
    (io : Io) (mapping_size : ℕ) (b : Buffers) {done : Bool} {b' : Buffers}
    → IsBytes b.area
    → IsBounded b.shared
    → handle_shared_buffer_io io mapping_size b ≡ returned done b'
    → IsBounded b'.shared
handle_shared_buffer_io-IsBounded io mapping_size b bytes v e =
    handle_returned (λ b. IsBounded b.shared) io mapping_size b (IsBounded-Moves io b bytes v) e
