-- ===== src/Startup/Tests.antt =====
-- The loading of a guest image at the example of README.md.
use kvm_hypervisor.Base.{◌≤◌, ◌<◌, refl, arith, [], ◌∷◌}
use kvm_hypervisor.Base.Memory.{store_bytes}
use kvm_hypervisor.LongMode.{guest_start_addr}
use kvm_hypervisor.Cli.Tests.{readme, readme_result, readme_accepted}
use kvm_hypervisor.Startup.{ImageFile, readable, load_guest_image, load_guest_image-parse_arguments}

-- A file of two bytes.
abbrev two_bytes : ImageFile
two_bytes = readable 2 (7 ∷ 9 ∷ [])

load_guest_image-parse_arguments_example :
    (guest_start_addr ≤ 0x8001) × (0x8001 < readme_result.config.memory_size)
unfolding load_guest_image store_bytes
load_guest_image-parse_arguments_example =
    load_guest_image-parse_arguments readme readme_result two_bytes (λ a. 0) 0x8001 readme_accepted
      refl (λ e. omega (arith, e))
