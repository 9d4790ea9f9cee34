-- ===== src/Fs/Files/Tests.antt =====
-- The theorems on open inodes and on entries of `file_table` at a concrete state.
use tinykernel.Base.{ℕ, ◌+◌, ◌≡◌, refl, true, false, arith, [], ◌∷◌, some, ◌==◌, if◌then◌else◌, ok}
use tinykernel.Fs.{Disk, read_sectors, Inode, FileSystem}
use tinykernel.Fs.Example.{partition, file_inode, system, task}
use tinykernel.Fs.Inodes.{
  inode_open, inode_close, load_inode, inode_locate, inode_of, find_open, open_again,
}
use tinykernel.Fs.Inodes.Cache.{
  is_open, IsCache, Opened, inode_open-Opened, Closed, inode_close-Closed,
}
use tinykernel.Fs.Files.{
  Opened as Claimed, file_open, file_close, free_slot, get_free_slot_in_global, new_file,
}
use tinykernel.Fs.Files.Opening.{is_denied, Claims, file_open-Claims, file_close-writable}

-- The table holds the numbers of the inodes 0 and 1.
abbrev disk : Disk
disk s o = if s == 4 then if o == 76 then 1 else 0 else 0

-- Only the root directory is open.
abbrev root_open : FileSystem
root_open = record system { disk = disk; part = record partition { open_inodes = 0x1000 ∷ [] } }

root_open-IsCache : IsCache root_open
root_open-IsCache = record {
  distinct = (refl, tt);
  unique = λ a b ha hb e. ground (arith, ha, hb);
  counted = λ a ha. ground (arith, ha);
  bounded = λ a ha. ground (arith, ha);
}

abbrev loaded : Inode
loaded = inode_of (read_sectors 4 1 disk (λ i. 0)) 76

loads : load_inode root_open.part 1 disk ≡ ok loaded
unfolding load_inode inode_locate
loads = refl

loaded_number : loaded.i_no ≡ 1
unfolding inode_of read_sectors
loaded_number = refl

inode_open-Opened_example :
    (address : ℕ) × (fs' : FileSystem) × (inode_open 1 root_open ≡ ok (address, fs'))
    × Opened root_open 1 address fs'
inode_open-Opened_example =
    inode_open-Opened root_open root_open-IsCache 1 loaded loads loaded_number refl
      (λ a h. ground (arith, h))

inode_close-Closed_example : Closed root_open 0x1000 (inode_close 0x1000 root_open)
inode_close-Closed_example = inode_close-Closed root_open root_open-IsCache 0x1000 refl

opens : inode_open 0 root_open ≡ ok (0x1000, (open_again 0x1000 root_open).1)
unfolding inode_open find_open open_again
opens = refl

slot : get_free_slot_in_global root_open ≡ some 4
unfolding free_slot
slot = refl

-- For reading only.
file_open-Claims_example :
    (result : Claimed) × (file_open 0 0 task root_open ≡ ok result)
    × Claims 0 4 0x1000 task (open_again 0x1000 root_open).1 result
file_open-Claims_example =
    file_open-Claims 0 0 4 0x1000 task root_open (open_again 0x1000 root_open).1 slot opens

-- The inode of two entries of `file_table`; the first is open for writing.
abbrev shared_inode : Inode
shared_inode = record file_inode { i_open_cnts = 2; write_deny = true }

abbrev shared : FileSystem
shared = record root_open {
  inodes = λ a. shared_inode;
  file_table = λ fd. if fd == 4 then new_file 0 0x1000 else new_file 2 0x1000;
}

shared-IsCache : IsCache shared
shared-IsCache = record {
  distinct = (refl, tt);
  unique = λ a b ha hb e. ground (arith, ha, hb);
  counted = λ a ha. ground arith;
  bounded = λ a ha. ground arith;
}

file_close-writable_example :
    (fs' : FileSystem) × (file_close 4 shared ≡ ok fs')
    × (is_open fs' 0x1000 ≡ true)
    × ((fs'.inodes 0x1000).i_open_cnts + 1 ≡ (shared.inodes 0x1000).i_open_cnts)
    × (is_denied fs' 0x1000 ≡ false)
file_close-writable_example =
    file_close-writable 4 0x1000 shared shared-IsCache refl refl (omega arith)
