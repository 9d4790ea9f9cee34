-- ===== src/Fs/Files.antt =====
-- `file_table`: `get_free_slot_in_global`, `file_open` and `file_close` of fs/file.c. The critical
-- section around `write_deny` is one step here, and restores the interrupt flag.
pub mod Slots
pub mod Opening
pub mod Tests
use tinykernel.Base.{
  ℕ, zero, suc, ◌+◌, ◌/◌, ◌%◌, ◌^◌, Bool, true, false, not, ◌&&◌, ◌||◌, Option, none, some, ◌==◌,
  if◌then◌else◌, Outcome, ok, panic, ◌>>=◌,
}
use tinykernel.Thread.Descriptors.{is_none, pcb_fd_install}
use tinykernel.Thread.Pcb.{Task}
use tinykernel.Fs.{Inode, File, FileSystem, set_inode, set_file}
use tinykernel.Fs.Inodes.{inode_open, inode_close}

-- The loop of `get_free_slot_in_global`; the first number is `MAX_FILE_OPEN - fd_idx`, and at 0 the
-- loop has ended and -1 is returned.
unfoldable pub free_slot : (ℕ → File) → ℕ → ℕ → Option ℕ
free_slot file_table zero fd_idx = none
free_slot file_table (suc left) fd_idx =
    let rest = free_slot file_table left (fd_idx + 1) in
    if is_none (file_table fd_idx).fd_inode then some fd_idx else rest

abbrev pub get_free_slot_in_global : FileSystem → Option ℕ
get_free_slot_in_global fs = free_slot fs.file_table 29 3

-- The bit `k` of the flags is set: 0 for O_WRONLY, 1 for O_RDWR, 2 for O_CREAT.
abbrev pub has_flag : ℕ → ℕ → Bool
has_flag flag k = flag / 2 ^ k % 2 == 1

abbrev pub may_write : ℕ → Bool
may_write flag = has_flag flag 1 || has_flag flag 0

-- A new entry of `file_table`.
abbrev pub new_file : ℕ → ℕ → File
new_file flag address = record { fd_pos = 0; fd_flag = flag; fd_inode = some address }

abbrev pub deny : Bool → ℕ → FileSystem → FileSystem
deny b address fs = set_inode address (record (fs.inodes address) { write_deny = b }) fs

-- A call returns a descriptor, or `none` for -1, and the task with its table of descriptors.
abbrev pub Opened : Type 0
Opened = Option ℕ × Task × FileSystem

-- `return pcb_fd_install(fd_idx)`
unfoldable pub install : ℕ → Task → FileSystem → Opened
install fd_idx cur fs = let (fd, cur') = pcb_fd_install fd_idx cur in (fd, cur', fs)

-- The second half of `file_open`, where `write_deny` is looked at.
unfoldable pub claim : ℕ → ℕ → ℕ → Task → FileSystem → Opened
claim fd_idx flag address cur fs =
    let taken = install fd_idx cur (deny true address fs) in
    let free = install fd_idx cur fs in
    if may_write flag
    then if (fs.inodes address).write_deny then (none, cur, fs) else taken
    else free

unfoldable pub file_open : ℕ → ℕ → Task → FileSystem → Outcome Opened
file_open inode_no flag cur fs = elim (get_free_slot_in_global fs) [
  | none ↦ ok (none, cur, fs)
  | some fd_idx ↦ do
    (address, fs1) ← inode_open inode_no fs
    ok (claim fd_idx flag address cur (set_file fd_idx (new_file flag address) fs1))
]

-- `file_close` of an entry of `file_table`; an entry without an inode is a NULL pointer that the
-- code follows.
unfoldable pub file_close : ℕ → FileSystem → Outcome FileSystem
file_close fd fs = elim (fs.file_table fd).fd_inode [
  | none ↦ panic
  | some address ↦ do
    let fs1 = inode_close address (deny false address fs)
    ok (set_file fd (record (fs.file_table fd) { fd_inode = none }) fs1)
]
