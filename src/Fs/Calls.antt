-- ===== src/Fs/Calls.antt =====
-- System calls of fs/fs.c on files, and `is_pipe` of shell/pipe.c. A descriptor that is `none` is a
-- negative number, and a result that is `none` is -1.
pub mod Seeking
use tinykernel.Base.{
  ℕ, zero, suc, ◌+◌, ◌-◌, ◌^◌, ◌/◌, ◌%◌, Bool, true, false, not, ◌&&◌, ◌||◌, List, [], ◌∷◌, Option,
  none, some, ltb, leb, ◌==◌, if◌then◌else◌, length, update, u32, Outcome, ok, panic, assert, ◌>>=◌,
  ◌>>◌,
}
use tinykernel.Thread.Pcb.{Task}
use tinykernel.Thread.Descriptors.{fd_local2global}
use tinykernel.Fs.{Inode, File, FileSystem, malloc_buffer, set_file}
use tinykernel.Fs.Paths.{slash, path_depth_cnt}
use tinykernel.Fs.Blocks.{inode_release}
use tinykernel.Fs.Files.{Opened, has_flag, may_write, file_open, file_close}
use tinykernel.Fs.Reading.{Answer, file_read}
use tinykernel.Fs.Writing.{file_write}
use tinykernel.Fs.Dirs.{Dir, ft_directory, dir_close}
use tinykernel.Fs.Removal.{delete_dir_entry}
use tinykernel.Fs.Search.{SearchRecord, Searched, search_file}
use tinykernel.Fs.Creation.{file_create}

abbrev pub pipe_flag : ℕ
pipe_flag = 5

unfoldable pub is_pipe : ℕ → Task → FileSystem → Outcome Bool
is_pipe local_fd cur fs = do
  global_fd ← fd_local2global local_fd cur
  ok ((fs.file_table global_fd).fd_flag == pipe_flag)

-- `pathname[strlen(pathname) - 1] == '/'`
unfoldable pub ends_in_slash : List ℕ → Bool
ends_in_slash [] = false
ends_in_slash (c ∷ cs) = elim cs [ [] ↦ c == slash | _ ∷ _ ↦ ends_in_slash cs ]

-- `strrchr(pathname, '/') + 1`
unfoldable pub last_name : List ℕ → List ℕ
last_name [] = []
last_name (c ∷ cs) =
    let rest = last_name cs in if has_slash cs then rest else if c == slash then cs else c ∷ cs
  where
    has_slash : List ℕ → Bool
    has_slash [] = false
    has_slash (d ∷ ds) = (d == slash) || has_slash ds

-- The two depths are the same. The stack of `path_depth_cnt` holds `garbage`.
unfoldable pub same_depth : ℕ → List ℕ → List ℕ → Bool
same_depth garbage a b = elim (path_depth_cnt (length a + 2) garbage a) [
  | none ↦ false
  | some m ↦ elim (path_depth_cnt (length b + 2) garbage b) [ none ↦ false | some n ↦ m == n ]
]

abbrev found : Option ℕ → Bool
found none = false
found (some n) = true

-- The way out of a call that has searched.
abbrev pub give_up : SearchRecord → Task → FileSystem → Opened
give_up r cur fs = (none, cur, dir_close r.parent_dir fs)

-- The `switch` of `sys_open`, behind its guards.
unfoldable pub open_found :
    List ℕ → ℕ → Option ℕ → SearchRecord → Task → FileSystem → Outcome Opened
open_found pathname flags inode_no r cur fs = do
  let create = do
    (fd, cur', fs') ← file_create r.parent_dir (last_name pathname) flags cur fs
    ok (fd, cur', dir_close r.parent_dir fs')
  let existing : Outcome Opened = elim inode_no [ none ↦ panic | some n ↦ file_open n flags cur fs ]
  if has_flag flags 2 then create else existing

unfoldable pub sys_open : ℕ → List ℕ → ℕ → Task → FileSystem → Outcome Opened
sys_open garbage pathname flags cur fs = do
  let search = do
    assert (leb flags 7)
    (inode_no, r, fs1) ← search_file garbage pathname fs
    let refused : Outcome Opened = ok (give_up r cur fs1)
    if r.file_type == ft_directory
        then refused
        else if not (same_depth garbage pathname r.searched_path)
        then refused
        else if not (found inode_no) && not (has_flag flags 2)
        then refused
        else if found inode_no && has_flag flags 2
        then refused
        else open_found pathname flags inode_no r cur fs1
  if ends_in_slash pathname then ok (none, cur, fs) else search

-- `--fd_pos == 0` of a pipe, whose page is given back when it holds.
unfoldable pub close_pipe : ℕ → FileSystem → FileSystem
close_pipe global_fd fs =
    let f = fs.file_table global_fd in
    let left = u32 (f.fd_pos + 2 ^ 32 - 1) in
    let closed : File = record f { fd_pos = left } in
    set_file global_fd (if left == 0 then record closed { fd_inode = none } else closed) fs

-- The descriptor can be used again.
abbrev pub release_fd : ℕ → Task → Task
release_fd fd cur = record cur { fd_table = update cur.fd_table fd none }

unfoldable pub sys_close : Option ℕ → Task → FileSystem → Outcome Opened
sys_close none cur fs = ok (none, cur, fs)
sys_close (some fd) cur fs = do
  let close = do
    global_fd ← fd_local2global fd cur
    pipe ← is_pipe fd cur fs
    fs' ← if pipe then ok (close_pipe global_fd fs) else file_close global_fd fs
    ok (some 0, release_fd fd cur, fs')
  if ltb 2 fd then close else ok (none, cur, fs)

-- `sys_create` opens what it has created and closes it.
unfoldable pub sys_create : ℕ → List ℕ → Task → FileSystem → Outcome Opened
sys_create garbage pathname cur fs = do
  let search = do
    (inode_no, r, fs1) ← search_file garbage pathname fs
    let create = do
      (fd, cur1, fs2) ← file_create r.parent_dir (last_name pathname) 4 cur fs1
      (ret, cur2, fs3) ← sys_close fd cur1 (dir_close r.parent_dir fs2)
      ok (some 0, cur2, fs3)
    if found inode_no
        then ok (none, cur, fs1)
        else if not (same_depth garbage pathname r.searched_path)
        then ok (give_up r cur fs1)
        else create
  if ends_in_slash pathname then ok (none, cur, fs) else search

-- Where a call for bytes goes on: nowhere, in the pipe of a global entry, at the console or the
-- keyboard, or in the file of a global entry, with its answer.
pub data Transfer {ℓ} (A : Type ℓ) : Type ℓ where
  refused at_terminal : Transfer A
  in_pipe : ℕ → Transfer A
  in_file : A → Transfer A

-- `file_write` or `file_read` of an entry that has an inode.
unfoldable pub on_inode {ℓ} : {A : Type ℓ} → ℕ → FileSystem → (ℕ → Outcome A) → Outcome A
on_inode global_fd fs call = elim (fs.file_table global_fd).fd_inode [
  | none ↦ panic
  | some address ↦ call address
]

unfoldable pub sys_write :
    (fuel : ℕ)
    → Option ℕ
    → (ℕ → ℕ)
    → ℕ
    → Task
    → FileSystem
    → Outcome (Transfer (Option ℕ × FileSystem))
sys_write fuel none buf count cur fs = ok refused
sys_write fuel (some fd) buf count cur fs = do
  pipe ← is_pipe fd cur fs
  global_fd ← fd_local2global fd cur
  let write = do
    answer ← on_inode global_fd fs (λ (address : ℕ). file_write fuel global_fd address count buf fs)
    ok (in_file answer)
  if pipe
      then ok (in_pipe global_fd)
      else if fd == 1
      then ok at_terminal
      else if may_write (fs.file_table global_fd).fd_flag
      then write
      else ok refused

unfoldable pub sys_read :
    (fuel : ℕ) → Option ℕ → (ℕ → ℕ) → ℕ → Task → FileSystem → Outcome (Transfer Answer)
sys_read fuel none buf count cur fs = ok refused
sys_read fuel (some fd) buf count cur fs = do
  let open_fd = do
    pipe ← is_pipe fd cur fs
    global_fd ← fd_local2global fd cur
    let read = do
      answer ←
          on_inode global_fd fs (λ (address : ℕ). file_read fuel global_fd address count buf fs)
      ok (in_file answer)
    if pipe then ok (in_pipe global_fd) else if fd == 0 then ok at_terminal else read
  if (fd == 1) || (fd == 2) then ok refused else open_fd

-- The test of `sys_lseek`, on 32-bit words: `new_pos < 0 || new_pos > file_size - 1`, signed.
abbrev pub is_negative : ℕ → Bool
is_negative w = leb (2 ^ 31) w

unfoldable pub out_of_file : ℕ → ℕ → Bool
out_of_file new_pos file_size =
    is_negative new_pos
    || is_negative (u32 (file_size + 2 ^ 32 - 1))
    || ltb (u32 (file_size + 2 ^ 32 - 1)) new_pos

-- The `switch` on `whence`: SEEK_SET is 1, SEEK_CUR 2 and SEEK_END 3.
unfoldable pub new_position : ℕ → ℕ → ℕ → ℕ → ℕ
new_position whence fd_pos file_size offset =
    if whence == 1
    then u32 offset
    else if whence == 2
    then u32 (fd_pos + offset)
    else u32 (file_size + offset)

-- `sys_lseek`; `offset` is the 32-bit word of the signed number.
unfoldable pub sys_lseek : Option ℕ → ℕ → ℕ → Task → FileSystem → Outcome (Option ℕ × FileSystem)
sys_lseek none offset whence cur fs = ok (none, fs)
sys_lseek (some fd) offset whence cur fs = do
  assert (ltb 0 whence && ltb whence 4)
  global_fd ← fd_local2global fd cur
  let f = fs.file_table global_fd
  on_inode global_fd fs (λ (address : ℕ). ok (seek global_fd f (fs.inodes address).i_size))
  where
    seek : ℕ → File → ℕ → Option ℕ × FileSystem
    seek global_fd f file_size =
        let new_pos = new_position whence f.fd_pos file_size offset in
        if out_of_file new_pos file_size
        then (none, fs)
        else (some new_pos, set_file global_fd (record f { fd_pos = new_pos }) fs)
