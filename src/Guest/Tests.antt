-- ===== src/Guest/Tests.antt =====
-- Runs of the guest on a small host, and the theorems at concrete inputs.
use kvm_hypervisor.Base.{
  ℕ, ◌≡◌, ◌≢◌, ◌⊎◌, inl, ◌∙◌, refl, Option, ap, arith, none, some, ◌==◌, if◌then◌else◌,
}
use kvm_hypervisor.Base.Int.{minus_one}
use kvm_hypervisor.Base.Memory.{Memory, read_le, write_le, read_le-write_le}
use kvm_hypervisor.Protocol.{file_io_port}
use kvm_hypervisor.FileIo.State.{World, FileRequest}
use kvm_hypervisor.FileIo.Port.{handle_file_io, handle_out, handle_in, pop_result}
use kvm_hypervisor.FileIo.Tests.{test_host, before_open}
use kvm_hypervisor.Guest.Ports.{Ports}
use kvm_hypervisor.Guest.OnHost.{
  IsServed, file_out, file_in, call_open, calling, calling-IsAnswer, request_of, IsAnswer,
}
use kvm_hypervisor.Guest.Interrupts.{Layout, communication_succeeded}
use kvm_hypervisor.Guest.Start.{TestLayout, start, halted, undefined_instruction, test_file_io}
use kvm_hypervisor.Runner.{irq_num}
use kvm_hypervisor.Guest.Tables.{init_gdt, init_idt}
use kvm_hypervisor.Guest.Dispatch.{dispatch}
use kvm_hypervisor.Guest.Gates.{dispatch-init_idt}
use kvm_hypervisor.Guest.Ends.{start-ends, after_two}

abbrev no_data : Memory
no_data a = 0

abbrev world_after : World test_host → ℕ → World test_host
world_after w v = elim (handle_file_io test_host (file_out 0) 4 (write_le 4 no_data 0 v) w) [
  | none ↦ w
  | some (w1, area) ↦ w1
]

abbrev served_in : World test_host → World test_host × ℕ
served_in w = elim (handle_file_io test_host (file_in 0) 4 no_data w) [
  | none ↦ (w, 0)
  | some (w1, area) ↦ (w1, read_le 4 area 0)
]

-- The file port is served by the host; all other ports read as zero.
abbrev test_ports : Ports
test_ports = record {
  State = World test_host;
  mem = λ w. w.mem;
  set_mem = λ m w. record w { mem = m };
  outb = λ port value w. w;
  outl = λ port value w. if port == file_io_port then world_after w value else w;
  inb = λ port w. (w, 0);
  inl = λ port w. if port == file_io_port then served_in w else (w, 0);
}

-- A word reads the same in whatever memory it was written.
read_word :
    (m m' : Memory) (v : ℕ) → read_le 4 (write_le 4 m 0 v) 0 ≡ read_le 4 (write_le 4 m' 0 v) 0
unfolding read_le write_le
read_word m m' v = refl

test_ports-IsServed : IsServed test_host test_ports (λ w. w) 0 4
unfolding handle_file_io handle_out handle_in
test_ports-IsServed = record {
  inside = omega arith;
  mem_lem = λ s. refl;
  set_mem_lem = λ m s. refl;
  outl_lem = λ v s area area1 w1 small told e.
      ground (arith, told, e, read_le-write_le 4 no_data 0 v (omega arith));
  inl_lem = λ s area area1 w1 e.
      let q : write_le 4 area 0 (pop_result test_host s).1 ≡ area1 = ground (arith, e) in
      (
        ground (arith, e),
        read_word no_data area (pop_result test_host s).1 ∙ ap (λ m. read_le 4 m 0) q,
      );
}

abbrev layout : Layout
layout = record { request_at = 88; buffer_at = 0; guest_txt = 40; reader_txt = 40 }

abbrev test_layout : TestLayout
test_layout = record { message_at = 0; buffer_at = 16; guest_txt = 40; request_at = 88 }

calling-IsAnswer_example :
    ((request_of (call_open 40 4) ≡ none)
      × (calling test_ports (call_open 40 4) 88 before_open ≡ (before_open, minus_one)))
    ⊎ ((r : FileRequest) × (request_of (call_open 40 4) ≡ some r)
        × IsAnswer test_host test_ports
            (λ w. w)
            0
            4
            test_ports-IsServed
            88
            r
            before_open
            (calling test_ports (call_open 40 4) 88 before_open))
calling-IsAnswer_example =
    calling-IsAnswer test_host test_ports (λ w. w) 0 4 test_ports-IsServed (call_open 40 4) 88
      before_open (omega arith) (omega arith, omega arith, omega arith)

start-ends_example : (start test_ports test_layout layout 2 before_open).0 ≡ (
    if communication_succeeded
      (after_two test_ports layout (test_file_io test_ports test_layout before_open)).0
    then halted
    else undefined_instruction)
start-ends_example = start-ends test_ports layout test_layout 2 before_open (omega arith)

-- The two tables behind the image, and a handler in it.
abbrev dispatched : ℕ → Option (ℕ × ℕ)
dispatched vector =
    let (m1, gdtr) = init_gdt 0x9000 (λ a. 0) in
    let (m2, idtr) = init_idt 0x8123 0x9100 m1 in dispatch m2 gdtr idtr vector

dispatch-init_idt_example :
    (dispatched irq_num ≡ some (8, 0x8123))
    × ((vector : ℕ) → vector ≢ irq_num → dispatched vector ≡ none)
dispatch-init_idt_example =
    dispatch-init_idt 0x9000 0x9100 0x8123 (λ a. 0) (inl (omega arith)) (omega arith)
      (λ a lo hi. refl)
