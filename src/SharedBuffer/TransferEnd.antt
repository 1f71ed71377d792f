-- ===== src/SharedBuffer/TransferEnd.antt =====
-- host/src/shared_buffer.cpp: when a request sets the flag `transferCompleted` of its VM.
use kvm_hypervisor.Base.{ℕ, ◌≡◌, ◌⊎◌, inl, inr, refl, Bool, true, false, inc64}
use kvm_hypervisor.Protocol.{vm_mode_reader, vm_mode_writer}
use kvm_hypervisor.Exit.{Io}
use kvm_hypervisor.SharedBuffer.State.{Buffers, returned}
use kvm_hypervisor.SharedBuffer.{
  handle_shared_buffer_io, give_mode, open_round, finish_writer_data, accept_byte, close_round,
  start_reading, take_byte, acknowledge,
}
use kvm_hypervisor.SharedBuffer.Moves.{Moves, handle_returned}

-- The request that finds the first buffers and leaves the second ends a transfer: the writer closes its
-- published round, which all readers have acknowledged, or a reader that stands at the end of the
-- current generation's data acknowledges that generation and is counted.
abbrev pub IsTransferEnd : Buffers → Buffers → Type 0
IsTransferEnd b b' =
    (b'.own.transfer_completed ≡ true)
    × (((b.own.mode ≡ vm_mode_writer)
          × (b.shared.data_ready ≡ true)
          × (b.shared.generation ≡ b.own.write_generation)
          × (b.shared.completed_readers ≡ b.shared.reader_count)
          × (b'.shared ≡ record b.shared { round_in_progress = false }))
        ⊎ ((b.own.mode ≡ vm_mode_reader)
            × (b.own.active_read_generation ≡ b.shared.generation)
            × (b.own.read_offset ≡ b.shared.size)
            × (b'.own.last_read_generation ≡ b.shared.generation)
            × (b'.shared
                ≡ record b.shared { completed_readers = inc64 b.shared.completed_readers })))

-- A call leaves the flag as it is, or ends the transfer.
abbrev pub Marks : Buffers → Buffers → Type 0
Marks b b' = (b'.own.transfer_completed ≡ b.own.transfer_completed) ⊎ IsTransferEnd b b'

Marks-Moves : (io : Io) (b : Buffers) → Moves (Marks b) io b
unfolding give_mode open_round finish_writer_data accept_byte close_round start_reading take_byte
    acknowledge
Marks-Moves io b = record {
  refused = inl refl;
  given = λ data_at. inl refl;
  opened = λ data_at w r p. inl refl;
  emptied = λ data_at w r. inl refl;
  stored = λ value w r d l m. inl refl;
  published = λ value w r d l m. inl refl;
  closed = λ data_at w d g c. inr (refl, inl (w, d, g, c, refl));
  started = λ data_at r d l. inl refl;
  taken = λ data_at r g l. inl refl;
  done = λ r port c g o l. inr (refl, inr (r, g, o, g, refl));
}

pub handle_shared_buffer_io-Marks :
    (io : Io) (mapping_size : ℕ) (b : Buffers) {done : Bool} {b' : Buffers}
    → handle_shared_buffer_io io mapping_size b ≡ returned done b'
    → Marks b b'
handle_shared_buffer_io-Marks io mapping_size b e =
    handle_returned (Marks b) io mapping_size b (Marks-Moves io b) e
