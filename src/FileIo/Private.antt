-- ===== src/FileIo/Private.antt =====
-- host/src/file_io.cpp, `resolveFile` to `prepareFileForWrite`: a shared file becomes private to a
-- VM on its first write. A `close` whose result the code ignores is `closed`.
use kvm_hypervisor.Base.{
  ℕ, Bool, true, false, not, ◌||◌, none, some, List, [], ◌∷◌, ◌++◌, if◌then◌else◌,
}
use kvm_hypervisor.Base.Int.{pos}
use kvm_hypervisor.FileIo.Host.{
  Name, HostPath, local_file, local_directory, Host, Reply, failed, done, seek_cur, seek_set,
}
use kvm_hypervisor.FileIo.Flags.{to_host_open_flags}
use kvm_hypervisor.FileIo.State.{OpenFile, OpenFiles, World, find, update, find_shared, same_name}

-- What a list of reopened files holds: the entry's descriptor and the new host descriptor.
abbrev pub ReopenedFile : Type 0
ReopenedFile = ℕ × ℕ

module _ (H : Host) where
  abbrev pub closed : Reply H.State Unit → H.State
  closed (failed s) = s
  closed (done s u) = s

  -- The path of a name, and whether it is a shared file.
  unfoldable pub resolve_file : Name → World H → HostPath × Bool
  resolve_file name w =
      if H.exists w.host (local_file w.id name)
      then (local_file w.id name, false)
      else elim (find_shared name w.shared_files) [
        | some path ↦ (path, true)
        | none ↦ (local_file w.id name, false)
      ]

  unfoldable pub close_reopened_files : List ReopenedFile → H.State → H.State
  close_reopened_files [] s = s
  close_reopened_files ((d, fd) ∷ files) s = close_reopened_files files (closed (H.close s fd))

  -- A new host descriptor for the private copy at the offset of an open shared file.
  unfoldable pub reopen_file : HostPath → OpenFile → H.State → Reply H.State ℕ
  reopen_file path file s = elim (H.lseek s file.host_descriptor (pos 0) seek_cur) [
    | failed s1 ↦ failed s1
    | done s1 offset ↦ elim (H.open_file s1 path (to_host_open_flags file.flags)) [
      | failed s2 ↦ failed s2
      | done s2 fd ↦ elim (H.lseek s2 fd (pos offset) seek_set) [
        | failed s3 ↦ failed (closed (H.close s3 fd))
        | done s3 at ↦ done s3 fd
      ]
    ]
  ]

  -- The first loop of `reopenSharedFiles`, over the entries left, with what it has reopened.
  unfoldable pub reopen_loop :
      Name → HostPath → OpenFiles → List ReopenedFile → H.State → Reply H.State (List ReopenedFile)
  unfolding reopen_file close_reopened_files
  reopen_loop name path [] reopened s = done s reopened
  reopen_loop name path ((d, file) ∷ files) reopened s =
      elim (not file.shared || not (same_name file.name name)) [
        | true ↦ reopen_loop name path files reopened s
        | false ↦ elim (reopen_file path file s) [
          | failed s1 ↦ failed (close_reopened_files reopened s1)
          | done s1 fd ↦ reopen_loop name path files (reopened ++ (d, fd) ∷ []) s1
        ]
      ]

  abbrev pub switched : HostPath → ℕ → OpenFile → OpenFile
  switched path fd file = record file { host_descriptor = fd; host_path = path; shared = false }

  -- The second loop, which turns the entries over to their new host descriptors.
  unfoldable pub switch_loop :
      HostPath → List ReopenedFile → H.State → OpenFiles → H.State × OpenFiles
  switch_loop path [] s files = (s, files)
  switch_loop path ((d, fd) ∷ reopened) s files = elim (find d files) [
    | none ↦ switch_loop path reopened s files
    | some file ↦
        switch_loop path reopened (closed (H.close s file.host_descriptor))
          (update d (switched path fd) files)
  ]

  abbrev pub is_empty : List ReopenedFile → Bool
  is_empty [] = true
  is_empty (x ∷ xs) = false

  abbrev pub with_host : H.State → World H → World H
  with_host s w = record w { host = s }

  unfoldable pub reopen_shared_files : Name → HostPath → World H → World H × Bool
  unfolding reopen_loop switch_loop
  reopen_shared_files name path w = elim (reopen_loop name path w.files.open_files [] w.host) [
    | failed s ↦ (with_host s w, false)
    | done s reopened ↦
        let (s1, files) = switch_loop path reopened s w.files.open_files in
        (
          record w { host = s1; files = record w.files { open_files = files } },
          not (is_empty reopened),
        )
  ]

  -- The copy is removed when it cannot be made or taken into use.
  abbrev pub without_copy : HostPath → World H → World H × Bool
  without_copy path w = (record w { host = H.remove w.host path }, false)

  unfoldable pub copy_for_write : Name → HostPath → World H → World H × Bool
  unfolding reopen_shared_files
  copy_for_write name source w =
      let path = local_file w.id name in
      elim (H.create_directories w.host (local_directory w.id)) [
        | failed s ↦ (with_host s w, false)
        | done s u ↦ elim (H.copy_file s source path) [
          | failed s1 ↦ without_copy path (with_host s1 w)
          | done s1 u1 ↦ elim (H.add_owner_write s1 path) [
            | failed s2 ↦ without_copy path (with_host s2 w)
            | done s2 u2 ↦
                let (w1, taken) = reopen_shared_files name path (with_host s2 w) in
                if taken then (w1, true) else without_copy path w1
          ]
        ]
      ]

  unfoldable pub prepare_file_for_write : OpenFile → World H → World H × Bool
  unfolding copy_for_write
  prepare_file_for_write file w =
      if not file.shared then (w, true) else copy_for_write file.name file.host_path w
