-- ===== src/Guest/Ends.antt =====
-- guest/src/main.c: where the guest's run ends.
use kvm_hypervisor.Base.{ℕ, zero, suc, ◌≤◌, ◌≡◌, ◌∙◌, refl, ap, arith, false, if◌then◌else◌}
use kvm_hypervisor.Guest.Ports.{Ports}
use kvm_hypervisor.Guest.Interrupts.{
  Layout, Statics, initial_statics, irq0_handler, communication_finished, communication_succeeded,
}
use kvm_hypervisor.Guest.Irqs.{irq0_handler-first, irq0_handler-later}
use kvm_hypervisor.Guest.Start.{
  TestLayout, spinning, undefined_instruction, halted, test_file_io, wait_for_transfer,
  after_transfer, start,
}

module _ (P : Ports) (L : Layout) where
  wait-finished :
      (n : ℕ) (g : Statics) (s : P.State)
      → g.transfer_finished ≡ 1
      → wait_for_transfer P L n g s ≡ (g, s)
  unfolding wait_for_transfer
  wait-finished zero g s e = refl
  wait-finished (suc n) g s e = ground arith

  -- The guest's state after two interrupts.
  abbrev pub after_two : P.State → Statics × P.State
  after_two s = let (g1, s1) = irq0_handler P L initial_statics s in irq0_handler P L g1 s1

  wait-two :
      (n : ℕ) (s : P.State) → wait_for_transfer P L (suc (suc n)) initial_statics s ≡ after_two s
  unfolding wait_for_transfer
  wait-two n s =
      let (g1, s1) = irq0_handler P L initial_statics s in
      let (g2, s2) = irq0_handler P L g1 s1 in
      let (e1, f1) = irq0_handler-first P L initial_statics s refl in
      let (e2, f2) = irq0_handler-later P L g1 s1 e1 in ground (arith, wait-finished n g2 s2 f2)

  wait-few :
      (n : ℕ) (s : P.State)
      → n ≤ 1
      → communication_finished (wait_for_transfer P L n initial_statics s).0 ≡ false
  unfolding wait_for_transfer
  wait-few zero s few = refl
  wait-few (suc zero) s few =
      let (e1, f1) = irq0_handler-first P L initial_statics s refl in ground arith
  wait-few (suc (suc n)) s few = absurd (omega arith)

  -- With fewer than two interrupts the guest waits on.
  start-spinning : (T : TestLayout) (n : ℕ) (s : P.State) → n ≤ 1 → (start P T L n s).0 ≡ spinning
  unfolding start
  start-spinning T n s few = ground (arith, wait-few n (test_file_io P T s) few)

  after_transfer-finished :
      (g : Statics) (s : P.State)
      → g.transfer_finished ≡ 1
      → (after_transfer P (g, s)).0
        ≡ (if communication_succeeded g then halted else undefined_instruction)
  unfolding after_transfer
  after_transfer-finished g s e = ground arith

  -- Where every access to a port returns, with whatever value, a run of the guest with two interrupts or
  -- more ends at the halt if the second interrupt's transfer has succeeded, and at the undefined
  -- instruction if it has not.
  pub start-ends :
      (T : TestLayout) (n : ℕ) (s : P.State)
      → 2 ≤ n
      → (start P T L n s).0 ≡ (
          if communication_succeeded (after_two (test_file_io P T s)).0
          then halted
          else undefined_instruction)
  unfolding start
  start-ends T zero s enough = absurd (omega arith)
  start-ends T (suc zero) s enough = absurd (omega arith)
  start-ends T (suc (suc n)) s enough =
      let s0 = test_file_io P T s in
      let (g1, s1) = irq0_handler P L initial_statics s0 in
      let (e1, f1) = irq0_handler-first P L initial_statics s0 refl in
      let (e2, f2) = irq0_handler-later P L g1 s1 e1 in
      ap (λ (r : Statics × P.State). (after_transfer P r).0) (wait-two n s0)
      ∙ after_transfer-finished (after_two s0).0 (after_two s0).1 f2
