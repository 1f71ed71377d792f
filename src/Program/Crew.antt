-- ===== src/Program/Crew.antt =====
-- host/src/main.cpp: the contexts of the guests, and the number of readers that the buffer counts to.
use Prim.Native.String.{String}
use Prim.Native.Nat.{◌^◌, ◌%◌}
use kvm_hypervisor.Base.{
  ℕ, suc, ◌+◌, ◌-◌, ◌<◌, ◌≡◌, ◌≢◌, refl, arith, some, List, [], ◌∷◌, length, ◌==◌, if◌then◌else◌,
}
use kvm_hypervisor.Protocol.{vm_mode_reader, vm_mode_writer}
use kvm_hypervisor.Cli.{CliResult, Config, ok, parse_arguments}
use kvm_hypervisor.Cli.Accepted.{parse_arguments-IsAccepted}
use kvm_hypervisor.Program.{Files, GuestContext, guest_contexts, prepared}

-- How many of the contexts have a mode.
pub count_mode : ℕ → List GuestContext → ℕ
count_mode mode [] = 0
count_mode mode (c ∷ contexts) =
    let rest = count_mode mode contexts in if c.shared_buffer.mode == mode then suc rest else rest

-- The contexts have the numbers from i on and the images, in their order.
abbrev pub AllNumbered : ℕ → List GuestContext → List String → Type 0
AllNumbered i [] [] = Unit
AllNumbered i [] (image ∷ images) = ⊥
AllNumbered i (c ∷ contexts) [] = ⊥
AllNumbered i (c ∷ contexts) (image ∷ images) =
    (c.id ≡ i) × (c.image_path ≡ image) × AllNumbered (i + 1) contexts images

guest_contexts-AllNumbered :
    (config : Config) (i : ℕ) (images : List String)
    → AllNumbered i (guest_contexts config i images) images
guest_contexts-AllNumbered config i [] = tt
guest_contexts-AllNumbered config i (image ∷ images) =
    (refl, refl, guest_contexts-AllNumbered config (i + 1) images)

count_mode-later :
    (config : Config) (i : ℕ) (images : List String)
    → 0 < i
    → (count_mode vm_mode_reader (guest_contexts config i images) ≡ length images)
      × (count_mode vm_mode_writer (guest_contexts config i images) ≡ 0)
unfolding count_mode
count_mode-later config i [] later = (refl, refl)
count_mode-later config i (image ∷ images) later =
    let (readers, writers) = count_mode-later config (i + 1) images (omega arith) in
    (ground arith, ground arith)

-- For an accepted command line, the contexts stand in the order of the images and have the numbers
-- from 0 on, exactly one of them is the writer's, and the shared buffer's number of readers is that of
-- the contexts of readers. The number of guests is less than 2^64.
pub prepared-crew :
    (arguments : List String) (r : CliResult) (files : Files)
    → parse_arguments arguments ≡ some r
    → r.status ≡ ok
    → length r.config.guest_images < 2 ^ 64
    → let l = prepared r.config files in
      AllNumbered 0 l.contexts r.config.guest_images
      × (count_mode vm_mode_writer l.contexts ≡ 1)
      × (count_mode vm_mode_reader l.contexts ≡ l.shared.reader_count)
unfolding count_mode
prepared-crew arguments r files accepted good few =
    let (writers, readers) =
      go r.config.guest_images (parse_arguments-IsAccepted arguments r accepted good).some_guest
        few in
    (guest_contexts-AllNumbered r.config 0 r.config.guest_images, writers, readers)
  where
    go :
        (images : List String)
        → images ≢ []
        → length images < 2 ^ 64
        → (count_mode vm_mode_writer (guest_contexts r.config 0 images) ≡ 1)
          × (count_mode vm_mode_reader (guest_contexts r.config 0 images)
              ≡ (length images + 2 ^ 64 - 1) % 2 ^ 64)
    go [] some_guest few = absurd (some_guest refl)
    go (image ∷ images) some_guest few =
        let (readers, writers) = count_mode-later r.config 1 images (omega arith) in
        (ground arith, ground arith)
