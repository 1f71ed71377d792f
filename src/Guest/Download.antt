-- ===== src/Guest/Download.antt =====
-- guest/src/interrupts.c on host/src/shared_buffer.cpp: what the reader's loop stores.
use kvm_hypervisor.Base.{
  ℕ, zero, suc, ◌+◌, ◌≤◌, ◌<◌, ◌≡◌, ◌∙◌, ◌⊎◌, sym, subst, ap, arith, true, false, List, [], length,
  take, some,
}
use kvm_hypervisor.Base.Memory.{Memory, read_le, store, store_bytes}
use kvm_hypervisor.Protocol.{buffer_size, shared_buffer_port, vm_mode_reader}
use kvm_hypervisor.SharedBuffer.State.{
  SharedBufferState, SharedBufferVmState, Buffers, Outcome, blocked, returned,
}
use kvm_hypervisor.SharedBuffer.{handle_shared_buffer_io}
use kvm_hypervisor.SharedBuffer.Reception.{
  receive, download_lem, begin_reader_round-starts, told_size,
}
use kvm_hypervisor.Guest.Ports.{Ports}
use kvm_hypervisor.Guest.Interrupts.{receive_bytes}
use kvm_hypervisor.Guest.Received.{
  byte_in, word_in, handle-byte_in, handle-word_in, read_shared_byte-mode, begin_reader_round-mode,
  receive-first, download-first,
}

-- A VM that has been told to be a reader.
abbrev pub IsReader : SharedBufferVmState → Type 0
IsReader v = (v.mode_delivered ≡ true) × (v.mode ≡ vm_mode_reader)

-- That a reader's IN of a byte or a word from the port of the buffer is an exit which
-- `handleSharedBufferIo` serves, that it finds the datum of the mapping, and that it leaves the guest's
-- memory alone; and that a store of the guest is one in its memory only.
pub record IsRead (P : Ports) (shared : P.State → SharedBufferState)
    (own : P.State → SharedBufferVmState) (data_at mapping_size : ℕ) : Type 0 where
  pub inside : data_at + 4 ≤ mapping_size
  pub store_mem : (m : Memory) (s : P.State) → P.mem (P.set_mem m s) ≡ m
  pub store_shared : (m : Memory) (s : P.State) → shared (P.set_mem m s) ≡ shared s
  pub store_own : (m : Memory) (s : P.State) → own (P.set_mem m s) ≡ own s
  pub inb_mem : (s : P.State) → P.mem (P.inb shared_buffer_port s).0 ≡ P.mem s
  pub inl_mem : (s : P.State) → P.mem (P.inl shared_buffer_port s).0 ≡ P.mem s
  pub inb_lem :
      (s : P.State) (area : Memory) (b : Buffers)
      → IsReader (own s)
      → handle_shared_buffer_io
          (byte_in data_at)
          mapping_size
          (record { shared = shared s; own = own s; area = area })
        ≡ returned true b
      → (shared (P.inb shared_buffer_port s).0 ≡ b.shared)
        × (own (P.inb shared_buffer_port s).0 ≡ b.own)
        × ((P.inb shared_buffer_port s).1 ≡ b.area data_at)
  pub inl_lem :
      (s : P.State) (area : Memory) (b : Buffers)
      → IsReader (own s)
      → handle_shared_buffer_io
          (word_in data_at)
          mapping_size
          (record { shared = shared s; own = own s; area = area })
        ≡ returned true b
      → (shared (P.inl shared_buffer_port s).0 ≡ b.shared)
        × (own (P.inl shared_buffer_port s).0 ≡ b.own)
        × ((P.inl shared_buffer_port s).1 ≡ read_le 4 b.area data_at)

abbrev area_of : Outcome → Memory
area_of blocked = λ a. 0
area_of (returned done b) = b.area

module _ (P : Ports) (shared : P.State → SharedBufferState) (own : P.State → SharedBufferVmState)
    (data_at mapping_size : ℕ) (served : IsRead P shared own data_at mapping_size) where
  abbrev pub found : P.State → Memory → Buffers
  found s area = record { shared = shared s; own = own s; area = area }

  -- The guest's state where it has stored the bytes and the host stands at `b'`.
  abbrev pub HasStored : P.State → ℕ → List ℕ → Buffers → P.State → Type 0
  HasStored s a xs b' s' =
      (shared s' ≡ b'.shared) × (own s' ≡ b'.own) × (P.mem s' ≡ store_bytes (P.mem s) a xs)

  receive_bytes-HasStored :
      (n a : ℕ) (s : P.State) (area : Memory) (xs : List ℕ) (b' : Buffers)
      → IsReader (own s)
      → receive data_at n (found s area) ≡ some (xs, b')
      → HasStored s a xs b' (receive_bytes P n a s)
  unfolding receive_bytes receive store_bytes
  receive_bytes-HasStored zero a s area xs b' reader e =
      let empty : xs ≡ [] = ground (arith, e) in
      (ground (arith, e), ground (arith, e), ap (store_bytes (P.mem s) a) (sym empty))
  receive_bytes-HasStored (suc n) a s area xs b' (delivered, reader) e =
      let (b1, ys, first, rest, split) = receive-first data_at n (found s area) b' xs e in
      let (mode, told) = read_shared_byte-mode data_at (found s area) b1 first in
      let (now, mine, value) =
        served.inb_lem s area b1 (delivered, reader)
          (handle-byte_in data_at mapping_size (found s area) served.inside delivered reader
            ∙ first) in
      let s1 = (P.inb shared_buffer_port s).0 in
      let x = (P.inb shared_buffer_port s).1 in
      let m = store (P.mem s1) a x in
      let s2 = P.set_mem m s1 in
      let now2 = served.store_shared m s1 ∙ now in
      let mine2 = served.store_own m s1 ∙ mine in
      let same : found s2 b1.area ≡ b1 =
        λ i. record { shared = now2 i; own = mine2 i; area = b1.area } in
      let told1 = ap (λ (v : SharedBufferVmState). v.mode_delivered) mine2 ∙ told ∙ delivered in
      let mode1 = ap (λ (v : SharedBufferVmState). v.mode) mine2 ∙ mode ∙ reader in
      let (shared1, own1, mem1) =
        receive_bytes-HasStored n (a + 1) s2 b1.area ys b' (told1, mode1)
          (subst (λ (b : Buffers). receive data_at n b ≡ some (ys, b')) (sym same) rest) in
      let stored : P.mem s2 ≡ store (P.mem s) a (b1.area data_at) =
        served.store_mem m s1
        ∙ ap (λ (k : Memory). store k a x) (served.inb_mem s)
        ∙ ap (store (P.mem s) a) value in
      (
        shared1,
        own1,
        mem1
            ∙ ap (λ (k : Memory). store_bytes k (a + 1) ys) stored
            ∙ ap (store_bytes (P.mem s) a) (sym split),
      )

  -- When a guest that is a reader asks for the size of a published round that it has not taken, and then
  -- reads that many bytes into its buffer, it is told the round's size, its memory holds the round's
  -- bytes in its buffer and is else unchanged, and the shared buffer is as before. The accesses to the
  -- port are served by the host, and some reader has not yet acknowledged the round.
  pub receive_bytes-stores :
      (a : ℕ) (s : P.State)
      → IsReader (own s)
      → (shared s).stopped ≡ false
      → (shared s).data_ready ≡ true
      → (own s).last_read_generation < (shared s).generation
      → ((own s).read_completed ≡ true)
        ⊎ ((own s).active_read_generation ≤ (own s).last_read_generation)
      → length (shared s).bytes ≡ buffer_size
      → (shared s).size ≤ buffer_size
      → (shared s).completed_readers < (shared s).reader_count
      → let (s1, count) = P.inl shared_buffer_port s in
        let s' = receive_bytes P count a s1 in
        (count ≡ (shared s).size)
        × (P.mem s' ≡ store_bytes (P.mem s) a (take (shared s).size (shared s).bytes))
        × (shared s' ≡ shared s)
  receive_bytes-stores a s (delivered, reader) running ready new free room fits short =
      let area : Memory = λ q. 0 in
      let xs = take (shared s).size (shared s).bytes in
      let (b', d, same_shared, ack) =
        download_lem data_at (found s area) running ready new free room fits short in
      let (b1, first, rest) = download-first data_at (found s area) b' xs d in
      let (mode, told) = begin_reader_round-mode data_at (found s area) b1 first in
      let starts = begin_reader_round-starts data_at (found s area) running ready new free in
      let size : read_le 4 b1.area data_at ≡ (shared s).size =
        ap (λ o. read_le 4 (area_of o) data_at) (sym first ∙ starts)
        ∙ told_size data_at (found s area) fits in
      let (now, mine, value) =
        served.inl_lem s area b1 (delivered, reader)
          (handle-word_in data_at mapping_size (found s area) served.inside delivered reader
            ∙ first) in
      let (s1, count) = P.inl shared_buffer_port s in
      let same : found s1 b1.area ≡ b1 =
        λ i. record { shared = now i; own = mine i; area = b1.area } in
      let told1 = ap (λ (v : SharedBufferVmState). v.mode_delivered) mine ∙ told ∙ delivered in
      let mode1 = ap (λ (v : SharedBufferVmState). v.mode) mine ∙ mode ∙ reader in
      let (shared1, own1, mem1) =
        receive_bytes-HasStored count a s1 b1.area xs b' (told1, mode1)
          (subst (λ (b : Buffers). receive data_at count b ≡ some (xs, b')) (sym same)
            (subst (λ k. receive data_at k b1 ≡ some (xs, b')) (sym value) rest)) in
      (
        value ∙ size,
        mem1 ∙ ap (λ (m : Memory). store_bytes m a xs) (served.inl_mem s),
        shared1 ∙ same_shared,
      )
