-- ===== src/Guest/UploadTests.antt =====
-- A writer's upload on a small state of the shared buffer.
use kvm_hypervisor.Base.{true, false}
use kvm_hypervisor.Base.Memory.{Memory, write_le}
use kvm_hypervisor.SharedBuffer.State.{
  SharedBufferState, SharedBufferVmState, Outcome, blocked, returned, initial_state,
  initial_vm_state,
}
use kvm_hypervisor.SharedBuffer.{handle_shared_buffer_io}
use kvm_hypervisor.Guest.Ports.{Ports}
use kvm_hypervisor.Guest.Sent.{byte_out, word_out}

record Upload : Type 0 where
  shared : SharedBufferState
  own : SharedBufferVmState
  memory : Memory

abbrev taken : Outcome → Upload → Upload
taken (returned true b) u = record u { shared = b.shared; own = b.own }
taken (returned false b) u = u
taken blocked u = u

-- Only the port of the buffer is served.
abbrev upload_ports : Ports
upload_ports = record {
  State = Upload;
  mem = λ u. u.memory;
  set_mem = λ m u. record u { memory = m };
  outb = λ port v u.
      taken
        (handle_shared_buffer_io (byte_out 0) 4
          (record { shared = u.shared; own = u.own; area = λ a. v }))
        u;
  outl = λ port v u.
      taken
        (handle_shared_buffer_io (word_out 0) 4
          (record { shared = u.shared; own = u.own; area = write_le 4 (λ a. 0) 0 v }))
        u;
  inb = λ port u. (u, 0);
  inl = λ port u. (u, 0);
}

-- A fresh shared buffer with one reader, and a writer whose memory counts the addresses.
abbrev before_upload : Upload
before_upload = record {
  shared = initial_state 1;
  own = record (initial_vm_state 1) { mode_delivered = true };
  memory = λ a. a;
}
