-- ===== src/Fs/Calls/Seeking.antt =====
-- Where `sys_lseek` lets a position go.
use tinykernel.Base.{
  ℕ, ◌+◌, ◌-◌, ◌^◌, ◌<◌, ◌≡◌, refl, ◌∙◌, Bool, true, false, not, ap, ◌&&◌, Option, none, some, ltb,
  leb, ◌==◌, if◌then◌else◌, arith, u32, Outcome, ok, Bool-cases, inl, inr,
}
use tinykernel.Thread.Pcb.{Task}
use tinykernel.Thread.Descriptors.{fd_local2global}
use tinykernel.Fs.{File, FileSystem, set_file}
use tinykernel.Fs.Calls.{on_inode, out_of_file, new_position, sys_lseek}

-- A signed offset: a distance, and whether it goes back. Its 32-bit word.
abbrev pub word_of : Bool → ℕ → ℕ
word_of back d = if back then u32 (2 ^ 32 - d) else d

-- The place to which an offset leads, if it is not in front of the file.
abbrev pub target : ℕ → Bool → ℕ → Option ℕ
target base back d = if back then if leb d base then some (base - d) else none else some (base + d)

-- From where SEEK_SET, SEEK_CUR and SEEK_END count.
abbrev pub base_of : ℕ → ℕ → ℕ → ℕ
base_of whence fd_pos size = if whence == 1 then 0 else if whence == 2 then fd_pos else size

-- The answer: a position that is less than the size of the file, or -1.
abbrev pub sought : ℕ → File → ℕ → FileSystem → Option ℕ → Option ℕ × FileSystem
sought g f size fs none = (none, fs)
sought g f size fs (some p) =
    if ltb p size then (some p, set_file g (record f { fd_pos = p }) fs) else (none, fs)

-- The signed test is the test against the size.
out_of_file-ltb : (p size : ℕ) → p < 2 ^ 32 → size < 2 ^ 31 → out_of_file p size ≡ not (ltb p size)
unfolding out_of_file
out_of_file-ltb p size word small = elim (Bool-cases (ltb p size)) [
  | inl inside ↦ rw inside (ground (arith, inside, small))
  | inr outside ↦ rw outside (ground (arith, outside, small))
]

-- What `sys_lseek` answers for the position `p`.
abbrev answer : ℕ → File → ℕ → FileSystem → ℕ → Option ℕ × FileSystem
answer g f size fs p =
    if out_of_file p size then (none, fs) else (some p, set_file g (record f { fd_pos = p }) fs)

answer-sought :
    (g : ℕ) (f : File) (size : ℕ) (fs : FileSystem) (p : ℕ)
    → p < 2 ^ 32
    → size < 2 ^ 31
    → answer g f size fs p ≡ sought g f size fs (some p)
answer-sought g f size fs p word small =
    let test = out_of_file-ltb p size word small in
    elim (Bool-cases (ltb p size)) [
      | inl inside ↦ rw (test, inside) refl
      | inr outside ↦ rw (test, outside) refl
    ]

answer-target :
    (g : ℕ) (f : File) (size : ℕ) (fs : FileSystem) (base d : ℕ) (back : Bool)
    → base < 2 ^ 31
    → size < 2 ^ 31
    → d < 2 ^ 31
    → answer g f size fs (u32 (base + word_of back d)) ≡ sought g f size fs (target base back d)
answer-target g f size fs base d false b s o =
    let sum : u32 (base + d) ≡ base + d = omega (arith, b, o) in
    rw sum (answer-sought g f size fs (base + d) (omega arith) s)
answer-target g f size fs base d true b s o = elim (Bool-cases (leb d base)) [
  | inl inside ↦
      let sum : u32 (base + u32 (2 ^ 32 - d)) ≡ base - d = ground (arith, inside, b, o) in
      rw (inside, sum) (answer-sought g f size fs (base - d) (omega arith) s)
  | inr before ↦
      let sum : u32 (base + u32 (2 ^ 32 - d)) ≡ 2 ^ 32 + base - d = ground (arith, before, b, o) in
      let outside : ltb (2 ^ 32 + base - d) size ≡ false = ground (arith, before, b, s, o) in
      rw (before, sum)
        (answer-sought g f size fs (2 ^ 32 + base - d) (ground (arith, before, b, o)) s
          ∙ rw outside refl)
]

on_inode-open {ℓ} :
    {A : Type ℓ} (g address : ℕ) (fs : FileSystem) (call : ℕ → Outcome A)
    → (fs.file_table g).fd_inode ≡ some address
    → on_inode g fs call ≡ call address
unfolding on_inode
on_inode-open g address fs call e = rw (e, on_inode) refl

-- `sys_lseek` through a descriptor that leads to an entry with an inode, for a signed 32-bit offset, and a size and position below 2 ^ 31. From the beginning, the position or the end of the file, by `whence`, it moves to the place at that distance and returns it if the place is in the file and in front of its end; so the end itself is out of reach. Otherwise it returns -1 and changes nothing.
pub sys_lseek-sought :
    (fd global_fd address d whence : ℕ) (back : Bool) (cur : Task) (fs : FileSystem)
    → 0 < whence
    → whence < 4
    → fd_local2global fd cur ≡ ok global_fd
    → (fs.file_table global_fd).fd_inode ≡ some address
    → (fs.file_table global_fd).fd_pos < 2 ^ 31
    → (fs.inodes address).i_size < 2 ^ 31
    → d < 2 ^ 31
    → sys_lseek (some fd) (word_of back d) whence cur fs
      ≡ ok (
          sought global_fd (fs.file_table global_fd) (fs.inodes address).i_size fs (
            target
              (base_of whence (fs.file_table global_fd).fd_pos (fs.inodes address).i_size)
              back
              d))
unfolding sys_lseek new_position
sys_lseek-sought fd g address d whence back cur fs lo hi leads open_file pos size small =
    let f = fs.file_table g in
    let range : (ltb 0 whence && ltb whence 4) ≡ true = ground (arith, lo, hi) in
    let base = base_of whence f.fd_pos (fs.inodes address).i_size in
    let at : new_position whence f.fd_pos (fs.inodes address).i_size (word_of back d)
        ≡ u32 (base + word_of back d) =
      ground arith in
    let below : base < 2 ^ 31 = ground (arith, pos, size) in
    rw (range, leads)
      (on_inode-open g address fs _ open_file
        ∙ ap ok (
            ap (answer g f (fs.inodes address).i_size fs) at
            ∙ answer-target g f (fs.inodes address).i_size fs base d back below size small))
