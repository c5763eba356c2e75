-- ===== src/Driver/Access.antt =====
-- What the application does with the driver, in
-- project-spec/meta-user/recipes-apps/autostart/src/axitangxi.c: pl_io, pl_write, pl_read,
-- ps_read_file, pl_config and pl_init. What the system calls answer is an argument.
use soc.Common.{
  ℕ, ◌-◌, ◌%◌, ◌^◌, ◌≡◌, refl, Option, none, some, Bool, true, false, ◌==◌, if◌then◌else◌, arith,
}
use soc.Common.Effects.{Call, returns, exits, ℤ, pos, negsuc}
use soc.Driver.Requests.{AxitangxiTransaction, init_trans}

-- The pointer `*ps_addr`: NULL, MAP_FAILED or memory.
pub data Pointer : Type 0 where
  null : Pointer
  map_failed : Pointer
  memory : ℕ → Pointer

-- `*ps_addr` after the allocation, where `mapped` is what mmap returns.
unfoldable pub ensure_mapped : Pointer → Pointer → Pointer
ensure_mapped null mapped = mapped
ensure_mapped map_failed mapped = map_failed
ensure_mapped (memory addr) mapped = memory addr

-- The result, `*ps_addr`, and the transaction that is handed to ioctl. mmap never returns NULL, which
-- ioctl would get as address 0.
pub record PlIo : Type 0 where
  pub result : ℤ
  pub ps_addr : Pointer
  pub trans : Option AxitangxiTransaction

unfoldable pub run_ioctl : Bool → ℕ → ℕ → ℕ → PlIo
run_ioctl done addr pl_addr size = record {
  result = if done then pos size else negsuc 0;
  ps_addr = memory addr;
  trans = some (init_trans addr pl_addr size);
}

unfoldable pub pl_io : Bool → Pointer → Pointer → ℕ → ℕ → PlIo
unfolding ensure_mapped run_ioctl
pl_io done mapped ps_addr pl_addr size = elim (ensure_mapped ps_addr mapped) [
  | null ↦ record (run_ioctl done 0 pl_addr size) { ps_addr = null }
  | map_failed ↦ record { result = negsuc 0; ps_addr = map_failed; trans = none }
  | memory addr ↦ run_ioctl done addr pl_addr size
]

-- What open, fstat (the file's size), mmap, read and close answer in ps_read_file.
pub record FileAnswers : Type 0 where
  pub opened : Bool
  pub st_size : Option ℕ
  pub mapped : Pointer
  pub size : Option ℕ
  pub closed : Bool

-- The result of read(2): -1 or a size.
abbrev pub read_result : Option ℕ → ℤ
read_result none = negsuc 0
read_result (some n) = pos n

abbrev pub is_map_failed : Pointer → Bool
is_map_failed map_failed = true
is_map_failed _ = false

-- The result, and `*addr`, which is written once the size is known.
unfoldable pub ps_read_file : FileAnswers → Pointer → ℤ × Pointer
ps_read_file file addr =
    if file.opened
    then elim file.st_size [
      | none ↦ (negsuc 0, addr)
      | some st_size ↦
          if is_map_failed file.mapped
          then (negsuc 0, file.mapped)
          else if file.closed
          then (read_result file.size, file.mapped)
          else (negsuc 0, file.mapped)
    ]
    else (negsuc 0, addr)

-- A `ssize_t` as a `uint32_t`
abbrev pub to_uint32 : ℤ → ℕ
to_uint32 (pos n) = n % 2 ^ 32
to_uint32 (negsuc n) = (2 ^ 32 - 1) - n % 2 ^ 32

-- The result, and `*p_size`.
unfoldable pub pl_config : FileAnswers → Bool → Pointer → Bool → ℕ → ℤ × ℕ
unfolding ps_read_file pl_io
pl_config file done mapped unmapped pl_addr =
    let read = ps_read_file file null in
    let size = to_uint32 read.0 in
    if size == 2 ^ 32 - 1
    then (negsuc 1, size)
    else if unmapped
    then ((pl_io done mapped read.1 pl_addr size).result, size)
    else (negsuc 2, size)

abbrev pub is_minus_one : ℤ → Bool
is_minus_one (pos n) = false
is_minus_one (negsuc n) = n == 0

-- The new `reg->weight_size`.
unfoldable pub pl_init : FileAnswers → Bool → Pointer → Bool → ℕ → Call ℕ
unfolding pl_config
pl_init file done mapped unmapped weight_addr =
    let config = pl_config file done mapped unmapped weight_addr in
    if is_minus_one config.0 then exits else returns config.1

-- What can go wrong with a file: open, fstat, mmap, read or close fails.
pub data IsUnread (file : FileAnswers) : Type 0 where
  not_opened : file.opened ≡ false → IsUnread file
  not_measured : file.st_size ≡ none → IsUnread file
  not_mapped : file.mapped ≡ map_failed → IsUnread file
  not_read : file.size ≡ none → IsUnread file
  not_closed : file.closed ≡ false → IsUnread file

IsUnread-minus_one :
    (opened closed : Bool) (st_size size : Option ℕ) (mapped : Pointer)
    → IsUnread (record {
      opened = opened;
      st_size = st_size;
      mapped = mapped;
      size = size;
      closed = closed;
    })
    → (ps_read_file
        (record {
          opened = opened;
          st_size = st_size;
          mapped = mapped;
          size = size;
          closed = closed;
        })
        null).0
      ≡ negsuc 0
unfolding ps_read_file
IsUnread-minus_one false closed st_size size mapped h = refl
IsUnread-minus_one true closed none size mapped h = refl
IsUnread-minus_one true closed (some n) size map_failed h = refl
IsUnread-minus_one true false (some n) size null h = refl
IsUnread-minus_one true false (some n) size (memory a) h = refl
IsUnread-minus_one true true (some n) none null h = refl
IsUnread-minus_one true true (some n) none (memory a) h = refl
IsUnread-minus_one true true (some n) (some k) null h = elim h [
  | not_opened e ↦ absurd (ground arith)
  | not_measured e ↦ absurd (ground arith)
  | not_mapped e ↦ absurd (ground arith)
  | not_read e ↦ absurd (ground arith)
  | not_closed e ↦ absurd (ground arith)
]
IsUnread-minus_one true true (some n) (some k) (memory a) h = elim h [
  | not_opened e ↦ absurd (ground arith)
  | not_measured e ↦ absurd (ground arith)
  | not_mapped e ↦ absurd (ground arith)
  | not_read e ↦ absurd (ground arith)
  | not_closed e ↦ absurd (ground arith)
]

ps_read_file-IsUnread : (file : FileAnswers) → IsUnread file → (ps_read_file file null).0 ≡ negsuc 0
ps_read_file-IsUnread file h =
    IsUnread-minus_one file.opened file.closed file.st_size file.size file.mapped h

-- If the weight file cannot be opened, measured, mapped, read or closed, pl_init does not end the
-- process: it returns, and the weight's size is 2^32 - 1.
pub pl_init_unread :
    (file : FileAnswers) (done unmapped : Bool) (mapped : Pointer) (weight_addr : ℕ)
    → IsUnread file
    → pl_init file done mapped unmapped weight_addr ≡ returns (2 ^ 32 - 1)
unfolding pl_init pl_config
pl_init_unread file done unmapped mapped weight_addr h =
    let e : (ps_read_file file null).0 ≡ negsuc 0 = ps_read_file-IsUnread file h in rw e refl
