-- ===== src/Startup/Loaded.antt =====
-- host/src/vm.c, `load_guest_image`: what a memory holds after it.
use kvm_hypervisor.Base.{
  ℕ, ◌+◌, ◌-◌, ◌%◌, ◌^◌, ◌≤◌, ◌<◌, ◌≡◌, refl, sym, ◌∙◌, ap, inl, inr, arith, Bool-cases, true, List,
  [], ◌∷◌, take, length, ltb, zero, suc,
}
use kvm_hypervisor.Base.Memory.{Memory, store, store_bytes, store_bytes-elsewhere}
use kvm_hypervisor.Startup.{ImageFile, readable, unreadable, load_guest_image}
use kvm_hypervisor.FileIo.Requests.{load_bytes}

-- The bytes of the image, all of them, stand at the address.
abbrev pub HasImage : ImageFile → ℕ → ℕ → Memory → Type 0
HasImage file mem_size at mem =
    (size : ℕ) × (contents : List ℕ) × (file ≡ readable size contents)
    × (load_bytes mem at size ≡ take size contents)
    × (length (take size contents) ≡ size)
    × (at + size ≤ mem_size)

load_bytes-congr :
    (m m' : Memory) (p n : ℕ)
    → ((a : ℕ) → p ≤ a → m a ≡ m' a)
    → load_bytes m p n ≡ load_bytes m' p n
unfolding load_bytes
load_bytes-congr m m' p zero h = refl
load_bytes-congr m m' p (suc n) h =
    rw (h p (omega arith), load_bytes-congr m m' (p + 1) n (λ a lo. h a (omega arith))) refl

load_bytes-store_bytes :
    (mem : Memory) (p : ℕ) (bytes : List ℕ)
    → load_bytes (store_bytes mem p bytes) p (length bytes) ≡ bytes
unfolding load_bytes store_bytes
load_bytes-store_bytes mem p [] = refl
load_bytes-store_bytes mem p (b ∷ bytes) =
    let first : store_bytes (store mem p b) (p + 1) bytes p ≡ b =
      store_bytes-elsewhere (store mem p b) (p + 1) bytes p (inl (omega arith)) ∙ ground arith in
    rw (first, load_bytes-store_bytes (store mem p b) (p + 1) bytes) refl

pub load_guest_image-HasImage :
    (file : ImageFile) (mem_size at : ℕ) (mem : Memory)
    → at ≤ mem_size
    → mem_size < 2 ^ 64
    → (load_guest_image file mem_size at mem).1 ≡ true
    → HasImage file mem_size at (load_guest_image file mem_size at mem).0
unfolding load_guest_image
load_guest_image-HasImage unreadable mem_size at mem low word h = cc
load_guest_image-HasImage (readable size contents) mem_size at mem low word h =
    elim (Bool-cases (ltb ((mem_size + 2 ^ 64 - at) % 2 ^ 64) size)) [
      | inl large ↦ absurd (ground arith)
      | inr fits ↦
          let whole : length (take size contents) ≡ size = ground arith in
          (
            size,
            contents,
            refl,
            rw fits (
                ap (load_bytes _ at) (sym whole)
                ∙ load_bytes-store_bytes mem at (take size contents)),
            whole,
            ground arith,
          )
    ]

pub load_guest_image-below :
    (file : ImageFile) (mem_size at : ℕ) (mem : Memory) (a : ℕ)
    → a < at
    → (load_guest_image file mem_size at mem).0 a ≡ mem a
unfolding load_guest_image
load_guest_image-below unreadable mem_size at mem a h = refl
load_guest_image-below (readable size contents) mem_size at mem a h =
    ground (arith, store_bytes-elsewhere mem at (take size contents) a (inl h))
