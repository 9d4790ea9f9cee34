-- ===== src/Fs/Files/Opening.antt =====
-- Writers of a file: what `file_open` and `file_close` do to `write_deny`.
use tinykernel.Base.{
  ℕ, ◌+◌, ◌<◌, ◌≡◌, refl, ◌∙◌, Bool, true, false, ◌&&◌, ◌||◌, none, some, arith, ◌==◌, ==_refl, ok,
  Bool-cases, inl, inr,
}
use tinykernel.Thread.Pcb.{Task}
use tinykernel.Thread.Descriptors.{Installs, pcb_fd_install-Installs}
use tinykernel.Fs.{FileSystem, set_file}
use tinykernel.Fs.Inodes.{inode_open, inode_close}
use tinykernel.Fs.Inodes.Cache.{is_open, IsCache, inode_close-Closed}
use tinykernel.Fs.Files.{
  Opened, get_free_slot_in_global, may_write, new_file, deny, install, claim, file_open, file_close,
}

-- Someone has the file open for writing.
abbrev pub is_denied : FileSystem → ℕ → Bool
is_denied fs address = (fs.inodes address).write_deny

-- A call of `file_open` that has found the entry `r` free, behind `inode_open`.
pub record Claims (flag r address : ℕ) (cur : Task) (fs1 : FileSystem) (result : Opened)
    : Type 0 where
  pub file : (result.2.file_table r) ≡ new_file flag address
  pub refused :
      (may_write flag && is_denied fs1 address) ≡ true
      → (result.0 ≡ none) × (result.1 ≡ cur) × (is_denied result.2 address ≡ true)
  pub taken :
      (may_write flag && is_denied fs1 address) ≡ false
      → Installs r cur (result.0, result.1)
        × (is_denied result.2 address ≡ (may_write flag || is_denied fs1 address))

claim-Claims :
    (r flag address : ℕ) (cur : Task) (fs1 : FileSystem)
    → Claims flag r address cur fs1
        (claim r flag address cur (set_file r (new_file flag address) fs1))
unfolding claim install
claim-Claims r flag address cur fs1 = elim (Bool-cases (may_write flag)) [
  | inr reads ↦ rw reads (record {
    file = rw here refl;
    refused = λ h. absurd (ground (arith, h));
    taken = λ h. (pcb_fd_install-Installs r cur, ground (arith, reads));
  })
  | inl writes ↦ elim (Bool-cases (is_denied fs1 address)) [
    | inl denied ↦
        rw (writes, denied)
          (record {
            file = rw here refl;
            refused = λ h. (refl, refl, denied);
            taken = λ h. absurd (ground (arith, h));
          })
    | inr free ↦
        rw (writes, free)
          (record {
            file = rw here refl;
            refused = λ h. absurd (ground (arith, h));
            taken =
                λ h. (pcb_fd_install-Installs r cur, ground (arith, ==_refl address, writes, free));
          })
  ]
]
  where
    here : (r == r) ≡ true
    here = ==_refl r

-- `file_open`, where an entry of `file_table` is free and `inode_open` gives an inode. If the call wants to write and the file is open for writing, it returns -1 and leaves the task as it was; otherwise the lowest free descriptor leads to the entry, if there is one, and the file is open for writing if it was or the call wants to write. In each case, also where it returns -1, the entry of `file_table` is taken.
pub file_open-Claims :
    (inode_no flag r address : ℕ) (cur : Task) (fs fs1 : FileSystem)
    → get_free_slot_in_global fs ≡ some r
    → inode_open inode_no fs ≡ ok (address, fs1)
    → (result : Opened) × (file_open inode_no flag cur fs ≡ ok result)
      × Claims flag r address cur fs1 result
unfolding file_open
file_open-Claims inode_no flag r address cur fs fs1 slot opens = (
  claim r flag address cur (set_file r (new_file flag address) fs1),
  rw (slot, opens, file_open) refl,
  claim-Claims r flag address cur fs1,
)

-- Setting `write_deny` changes nothing that the cache is about.
deny-IsCache : (b : Bool) (address : ℕ) (fs : FileSystem) → IsCache fs → IsCache (deny b address fs)
deny-IsCache b address fs v = record {
  distinct = v.distinct;
  unique = λ c d hc hd e. v.unique c d hc hd (ground (arith, e));
  counted = λ c hc. ground (arith, v.counted c hc);
  bounded = λ c hc. ground (arith, v.bounded c hc);
}

-- `file_close` of an entry whose inode is open at least twice, in a cache of open inodes. The inode stays open, once less, and is not marked as open for writing afterwards, whoever has it open and whether the entry was open for writing or not.
pub file_close-writable :
    (fd address : ℕ) (fs : FileSystem)
    → IsCache fs
    → (fs.file_table fd).fd_inode ≡ some address
    → is_open fs address ≡ true
    → 1 < (fs.inodes address).i_open_cnts
    → (fs' : FileSystem) × (file_close fd fs ≡ ok fs')
      × (is_open fs' address ≡ true)
      × ((fs'.inodes address).i_open_cnts + 1 ≡ (fs.inodes address).i_open_cnts)
      × (is_denied fs' address ≡ false)
unfolding file_close
file_close-writable fd address fs v file inside more =
    let here = ==_refl address in
    let fs1 = deny false address fs in
    let c = inode_close-Closed fs1 (deny-IsCache false address fs v) address inside in
    (
      set_file fd (record (fs.file_table fd) { fd_inode = none }) (inode_close address fs1),
      rw (file, file_close) refl,
      c.still ∙ ground (arith, here, more),
      c.counts ∙ ground (arith, here),
      c.denied ∙ ground (arith, here),
    )
