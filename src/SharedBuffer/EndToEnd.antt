-- ===== src/SharedBuffer/EndToEnd.antt =====
-- host/src/shared_buffer.cpp: both halves of a transfer together.
use kvm_hypervisor.Base.{
  ℕ, ◌+◌, ◌^◌, ◌≤◌, ◌<◌, ◌≡◌, ◌⊎◌, sym, ◌∙◌, true, false, arith, min, List, length, take, some,
  take-min,
}
use kvm_hypervisor.Base.Memory.{Memory, read_le}
use kvm_hypervisor.Protocol.{buffer_size}
use kvm_hypervisor.SharedBuffer.State.{SharedBufferVmState, Buffers, returned}
use kvm_hypervisor.SharedBuffer.{open_round, acknowledge, finish_reader_round}
use kvm_hypervisor.SharedBuffer.Transfer.{upload, upload_lem, IsPublished}
use kvm_hypervisor.SharedBuffer.Reception.{download, download_lem}

-- A reader that is not in the middle of a round and has taken no generation of the future.
pub record IsFree (generation : ℕ) (v : SharedBufferVmState) : Type 0 where
  pub past : v.last_read_generation ≤ generation
  pub between : (v.read_completed ≡ true) ⊎ (v.active_read_generation ≤ v.last_read_generation)

stored_prefix :
    (xs : List ℕ) (b b' : Buffers)
    → IsPublished xs (open_round (length xs) b) b'
    → (b'.shared.size ≡ min (length xs) buffer_size)
      × (take b'.shared.size b'.shared.bytes ≡ take buffer_size xs)
unfolding open_round
stored_prefix xs b b' p =
    (p.size_kept, rw (p.size_kept, ← p.room) (take-min (length xs) b'.shared.bytes ∙ p.content))

-- What a free reader receives after an upload is the first 256 bytes that the writer sent, all of
-- them if there are no more; the shared state is as the writer left it, and the acknowledgement of
-- the size is accepted.
pub download-upload :
    (data_at : ℕ) (xs : List ℕ) (b : Buffers)
    → b.shared.stopped ≡ false
    → b.shared.round_in_progress ≡ false
    → length b.shared.bytes ≡ buffer_size
    → read_le 4 b.area data_at ≡ length xs
    → length xs < 2 ^ 32
    → b.shared.generation + 1 < 2 ^ 64
    → 0 < b.shared.reader_count
    → (read_at : ℕ) (v : SharedBufferVmState) (area : Memory) → IsFree b.shared.generation v
    → (b' r : Buffers) × (upload data_at xs b ≡ returned true b')
      × (download read_at (record { shared = b'.shared; own = v; area = area })
          ≡ some (take buffer_size xs, r))
      × (r.shared ≡ b'.shared)
      × ((ack_at : ℕ) (acks : Memory)
          → read_le 4 acks ack_at ≡ min (length xs) buffer_size
          → finish_reader_round ack_at (record r { area = acks })
            ≡ returned true (acknowledge (record r { area = acks })))
unfolding open_round
download-upload data_at xs b running idle room count fits few some_reader read_at v area free =
    let (b', e, p) = upload_lem data_at xs b running idle room count fits in
    let (size, content) = stored_prefix xs b b' p in
    let (r, d, same, ack) =
      download_lem read_at (record { shared = b'.shared; own = v; area = area }) p.running p.ready
        (omega (arith, p.next_generation, free.past)) free.between p.room (omega (arith, size))
        (omega (arith, p.completed_kept, p.readers_kept, some_reader)) in
    (b', r, e, rw content at d, same, λ ack_at acks told. ack ack_at acks (told ∙ sym size))
