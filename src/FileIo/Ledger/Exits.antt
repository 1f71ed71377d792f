-- ===== src/FileIo/Ledger/Exits.antt =====
-- host/src/file_io.cpp, `handleFileIo` and `closeGuestFiles`: the host descriptors under the exits of a
-- VM, to its end.
use kvm_hypervisor.Base.{ℕ, ◌+◌, ◌≤◌, ◌≡◌, inl, inr, subst, ap, arith, some, Option-cases}
use kvm_hypervisor.Base.Memory.{Memory, read_le}
use kvm_hypervisor.Base.Int.{Int32}
use kvm_hypervisor.Exit.{Io}
use kvm_hypervisor.FileIo.Host.{Host}
use kvm_hypervisor.FileIo.Names.{get_guest_memory}
use kvm_hypervisor.FileIo.State.{
  OpenFile, World, FileRequest, find, decode_request, file_request_size,
}
use kvm_hypervisor.FileIo.Private.{prepare_file_for_write, copy_for_write}
use kvm_hypervisor.FileIo.CopyOnWrite.{copy_for_write-cases}
use kvm_hypervisor.FileIo.Requests.{
  process_file_request, open_file, close_file, read_file, write_file, seek_file, seek_to,
  open_resolved, write_private, add_open_file,
}
use kvm_hypervisor.FileIo.Port.{
  handle_file_io, handle_out, handle_in, answer_request, push_result, pop_result, close_all,
  close_guest_files,
}
use kvm_hypervisor.FileIo.Valid.{IsValid}
use kvm_hypervisor.FileIo.Answers.{handle_file_io-cases}
use kvm_hypervisor.FileIo.Ledger.{HostAccount, IsHost, Owes-congr, Owes-none}
use kvm_hypervisor.FileIo.Ledger.Loops.{close_all-Owes}
use kvm_hypervisor.FileIo.Ledger.Copies.{IsBalanced}
use kvm_hypervisor.FileIo.Ledger.Requests.{process_file_request-IsBalanced}

module _ (H : Host) where
  -- A request takes at most one descriptor.
  abbrev Counts : World H → World H → Type 0
  Counts w w' = w'.files.next_descriptor ≤ w.files.next_descriptor + 1

  prepare_file_for_write-Counts :
      (file : OpenFile) (w : World H)
      → (prepare_file_for_write H file w).0.files.next_descriptor ≡ w.files.next_descriptor
  unfolding prepare_file_for_write
  prepare_file_for_write-Counts file w =
      let (same, table) = copy_for_write-cases H file.name file.host_path w in
      let kept : (copy_for_write H file.name file.host_path w).0.files.next_descriptor
          ≡ w.files.next_descriptor =
        elim table [
          | inl (refused, e) ↦ ap (λ x. x.next_descriptor) e
          | inr (copied, (s, s1, r, looped, e)) ↦ ap (λ x. x.next_descriptor) e
        ] in
      ground (arith, kept)

  write_file-Counts : (request : FileRequest) (w : World H) → Counts w (write_file H request w).0
  unfolding write_file write_private
  write_file-Counts request w = elim (Option-cases (find request.descriptor w.files.open_files)) [
    | inl e ↦ ground arith
    | inr (file, e) ↦ ground (arith, prepare_file_for_write-Counts file w)
  ]

  open_file-Counts : (request : FileRequest) (w : World H) → Counts w (open_file H request w).0
  unfolding open_file open_resolved add_open_file
  open_file-Counts request w = ground arith

  close_file-Counts : (d : Int32) (w : World H) → Counts w (close_file H d w).0
  unfolding close_file
  close_file-Counts d w = ground arith

  read_file-Counts : (request : FileRequest) (w : World H) → Counts w (read_file H request w).0
  unfolding read_file
  read_file-Counts request w = ground arith

  seek_file-Counts : (request : FileRequest) (w : World H) → Counts w (seek_file H request w).0
  unfolding seek_file seek_to
  seek_file-Counts request w = ground arith

  process_file_request-Counts :
      (request : FileRequest) (w : World H) → Counts w (process_file_request H request w).0
  unfolding process_file_request
  process_file_request-Counts request w = ground (
    arith,
    open_file-Counts request w,
    close_file-Counts request.descriptor w,
    read_file-Counts request w,
    write_file-Counts request w,
    seek_file-Counts request w,
  )

  handle_out-Counts :
      (data_at : ℕ) (area : Memory) (w : World H) → Counts w (handle_out H data_at area w).0
  unfolding handle_out push_result answer_request
  handle_out-Counts data_at area w =
      elim (Option-cases (get_guest_memory w.mem_size (read_le 4 area data_at) file_request_size)) [
        | inl e ↦ ground arith
        | inr (at, e) ↦ ground (arith, process_file_request-Counts (decode_request w.mem at) w)
      ]

  handle_in-Counts :
      (data_at : ℕ) (area : Memory) (w : World H) → Counts w (handle_in H data_at area w).0
  unfolding handle_in pop_result
  handle_in-Counts data_at area w = ground arith

  pub handle_file_io-Counts :
      (io : Io) (mapping_size : ℕ) (area : Memory) (w : World H) (after : World H × Memory)
      → handle_file_io H io mapping_size area w ≡ some after
      → after.0.files.next_descriptor ≤ w.files.next_descriptor + 1
  handle_file_io-Counts io mapping_size area w after h =
      elim (handle_file_io-cases H io mapping_size area w after h) [
        | inl e ↦
            subst (λ (x : World H × Memory). Counts w x.0) e
              (handle_out-Counts io.data_offset area w)
        | inr e ↦
            subst (λ (x : World H × Memory). Counts w x.0) e
              (handle_in-Counts io.data_offset area w)
      ]

module _ (H : Host) (account : H.State → HostAccount) (L : IsHost H account)
    (base : HostAccount) where
  handle_out-IsBalanced :
      (data_at : ℕ) (area : Memory) (w : World H)
      → IsValid H w
      → IsBalanced H account L base w
      → IsBalanced H account L base (handle_out H data_at area w).0
  unfolding handle_out push_result answer_request
  handle_out-IsBalanced data_at area w v b =
      elim (Option-cases (get_guest_memory w.mem_size (read_le 4 area data_at) file_request_size)) [
        | inl e ↦ ground (arith, b)
        | inr (at, e) ↦ ground (
          arith,
          process_file_request-IsBalanced H account L base (decode_request w.mem at) w v b,
        )
      ]

  handle_in-IsBalanced :
      (data_at : ℕ) (area : Memory) (w : World H)
      → IsBalanced H account L base w
      → IsBalanced H account L base (handle_in H data_at area w).0
  unfolding handle_in pop_result
  handle_in-IsBalanced data_at area w b = ground (arith, b)

  pub handle_file_io-IsBalanced :
      (io : Io) (mapping_size : ℕ) (area : Memory) (w : World H) (after : World H × Memory)
      → IsValid H w
      → IsBalanced H account L base w
      → handle_file_io H io mapping_size area w ≡ some after
      → IsBalanced H account L base after.0
  handle_file_io-IsBalanced io mapping_size area w after v b h =
      elim (handle_file_io-cases H io mapping_size area w after h) [
        | inl e ↦
            subst (λ (x : World H × Memory). IsBalanced H account L base x.0) e
              (handle_out-IsBalanced io.data_offset area w v b)
        | inr e ↦
            subst (λ (x : World H × Memory). IsBalanced H account L base x.0) e
              (handle_in-IsBalanced io.data_offset area w b)
      ]

  -- The end of a VM gives back the descriptors of its table, each once.
  pub close_guest_files-account :
      (w : World H) → IsBalanced H account L base w → account (close_guest_files H w).host ≡ base
  unfolding close_guest_files
  close_guest_files-account w b = Owes-none base (account (close_all H w.files.open_files w.host)) (
      close_all-Owes H account L base w.files.open_files w.host (λ n. 0)
        (Owes-congr base (account w.host) _ _ (λ n. omega arith) b))
