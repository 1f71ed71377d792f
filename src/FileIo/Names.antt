-- ===== src/FileIo/Names.antt =====
-- host/src/file_io.cpp: the names that a guest may use, and how they are read from its memory.
use kvm_hypervisor.Base.{
  ◌↔◌, ℕ, zero, suc, ◌+◌, ◌-◌, ◌≤◌, ◌<◌, ◌≡◌, ◌≢◌, refl, Bool, true, false, not, ◌&&◌, ◌||◌, Option,
  none, some, [], ◌∷◌, arith, min, ltb, leb, ◌==◌, if◌then◌else◌, length,
}
use kvm_hypervisor.Base.Memory.{Memory}
use kvm_hypervisor.Protocol.{file_name_max}
use kvm_hypervisor.FileIo.Host.{Name}

pub is_letter : ℕ → Bool
is_letter c = leb b'a' c && leb c b'z' || leb b'A' c && leb c b'Z'

pub is_digit : ℕ → Bool
is_digit c = leb b'0' c && leb c b'9'

-- The loop over the characters.
pub all_allowed : Name → Bool
unfolding is_letter is_digit
all_allowed [] = true
all_allowed (c ∷ cs) =
    let rest = all_allowed cs in
    if not (is_letter c) && not (is_digit c) && not (c == b'.') then false else rest

unfoldable pub is_valid_guest_file_name : Name → Bool
unfolding is_letter all_allowed
is_valid_guest_file_name [] = false
is_valid_guest_file_name (c ∷ cs) = if not (is_letter c) then false else all_allowed (c ∷ cs)

-- Where `size` bytes at a guest address lie inside guest memory, their offset in it.
unfoldable pub get_guest_memory : ℕ → ℕ → ℕ → Option ℕ
get_guest_memory mem_size address size =
    if ltb mem_size address || ltb (mem_size - address) size then none else some address

-- The bytes before the first zero among the next `rounds` ones.
unfoldable pub scan_name : ℕ → Memory → ℕ → Option Name
scan_name zero mem p = none
scan_name (suc rounds) mem p =
    let rest = scan_name rounds mem (p + 1) in
    if mem p == 0 then some [] else elim rest [ none ↦ none | some cs ↦ some (mem p ∷ cs) ]

-- The loop ends at 255 characters and at the end of memory.
unfoldable pub read_guest_file_name : Memory → ℕ → ℕ → Option Name
unfolding get_guest_memory
read_guest_file_name mem mem_size address = elim (get_guest_memory mem_size address 1) [
  | none ↦ none
  | some at ↦ elim (scan_name (min (file_name_max + 1) (mem_size - address)) mem at) [
    | none ↦ none
    | some name ↦ if is_valid_guest_file_name name then some name else none
  ]
]

-- No character of a name is a path separator or ends a C string.
abbrev pub IsPlain : Name → Type 0
IsPlain [] = Unit
IsPlain (c ∷ cs) = (c ≢ b'/') × (c ≢ 0) × (c < 128) × IsPlain cs

all_allowed-IsPlain : (name : Name) → all_allowed name ≡ true → IsPlain name
unfolding all_allowed
all_allowed-IsPlain [] h = tt
all_allowed-IsPlain (c ∷ cs) h = ground (arith, all_allowed-IsPlain cs)

-- A valid name is not empty and does not begin with a dot, so it is none of the two directory names;
-- and no character of it is a path separator, a zero or above 127, so that it names an entry of one
-- directory.
pub is_valid_guest_file_name-IsPlain :
    (name : Name)
    → is_valid_guest_file_name name ≡ true
    → IsPlain name × ((c : ℕ) × (cs : Name) × (name ≡ c ∷ cs) × (c ≢ b'.'))
unfolding is_valid_guest_file_name
is_valid_guest_file_name-IsPlain [] h = cc
is_valid_guest_file_name-IsPlain (c ∷ cs) h =
    (all_allowed-IsPlain (c ∷ cs) (ground arith), (c, cs, refl, ground arith))

-- The name followed by a zero stands at `p` in memory.
abbrev pub StandsAt : Name → Memory → ℕ → Type 0
StandsAt [] mem p = mem p ≡ 0
StandsAt (c ∷ cs) mem p = (mem p ≡ c) × (c ≢ 0) × StandsAt cs mem (p + 1)

scan_name-StandsAt :
    (rounds : ℕ) (mem : Memory) (p : ℕ) (name : Name)
    → scan_name rounds mem p ≡ some name
    → StandsAt name mem p × (length name < rounds)
unfolding scan_name
scan_name-StandsAt zero mem p name e = cc
scan_name-StandsAt (suc rounds) mem p [] e = ground arith
scan_name-StandsAt (suc rounds) mem p (c ∷ cs) e =
    ground (arith, scan_name-StandsAt rounds mem (p + 1) cs)

scan_name-finds :
    (rounds : ℕ) (mem : Memory) (p : ℕ) (name : Name)
    → StandsAt name mem p
    → length name < rounds
    → scan_name rounds mem p ≡ some name
unfolding scan_name
scan_name-finds zero mem p name s h = absurd (omega arith)
scan_name-finds (suc rounds) mem p [] s h = ground arith
scan_name-finds (suc rounds) mem p (c ∷ cs) (e, ne, s) h =
    ground (arith, scan_name-finds rounds mem (p + 1) cs s (omega arith))

abbrev rounds_of : ℕ → ℕ → ℕ
rounds_of mem_size address = min (file_name_max + 1) (mem_size - address)

read_guest_file_name-scan_name :
    (mem : Memory) (mem_size address : ℕ) (name : Name)
    → (read_guest_file_name mem mem_size address ≡ some name) ↔ (
        (address < mem_size)
        × (scan_name (rounds_of mem_size address) mem address ≡ some name)
        × (is_valid_guest_file_name name ≡ true))
unfolding read_guest_file_name
read_guest_file_name-scan_name mem mem_size address name =
    elim (scan_name (rounds_of mem_size address) mem address) [
      | none ↦ ground arith
      | some found ↦ ground arith
    ]

-- A name is read from an address exactly when it is valid and stands there with a zero behind it,
-- has at most 255 characters, and lies with its zero inside guest memory.
pub read_guest_file_name_iff :
    (mem : Memory) (mem_size address : ℕ) (name : Name)
    → (read_guest_file_name mem mem_size address ≡ some name) ↔ (
        (is_valid_guest_file_name name ≡ true)
        × StandsAt name mem address
        × (length name ≤ 255)
        × (address + length name < mem_size))
read_guest_file_name_iff mem mem_size address name =
    let (to, from) = read_guest_file_name-scan_name mem mem_size address name in
    let rounds = rounds_of mem_size address in
    (
      λ e.
          let (inside, scanned, valid) = to e in
          let (stands, short) = scan_name-StandsAt rounds mem address name scanned in
          (valid, stands, omega arith, omega arith),
      λ (valid, stands, short, inside).
          from (omega arith, scan_name-finds rounds mem address name stands (omega arith), valid),
    )
