-- ===== src/Fs/Tests.antt =====
-- The theorems on the file system at concrete states, and runs of its functions.
use tinykernel.Base.{
  ℕ, ◌+◌, ◌<◌, ◌≡◌, ◌⊎◌, refl, inl, inr, dec_lt, true, false, arith, List, [], ◌∷◌, none, some,
  if◌then◌else◌, ltb, ok, panic, u8,
}
use tinykernel.Bitmap.{bitmap_scan_test}
use tinykernel.Thread.Descriptors.{fd_local2global}
use tinykernel.Fs.{Disk, Inode, FileSystem, Partition}
use tinykernel.Fs.Example.{
  bitmap-HasBytes, bitmap-IsSmall, partition, file_inode, disk, open_file, system, task,
}
use tinykernel.Fs.Inodes.{inode_byte, pure_inode, inode_sync, load_inode}
use tinykernel.Fs.Inodes.Stored.{
  IsInside, Replaced, inode_sync-Replaced, IsWords, ReadBack, load_inode-inode_sync,
}
use tinykernel.Fs.Blocks.{block_bitmap_alloc, release_all}
use tinykernel.Fs.Blocks.Alloc.{
  IsBlock, block_used, AllocatedBlock, block_bitmap_alloc-AllocatedBlock,
}
use tinykernel.Fs.Blocks.Release.{IsEntry, IsSynced, Freed, owned_bit, release_all-Freed}
use tinykernel.Fs.Files.{get_free_slot_in_global}
use tinykernel.Fs.Files.Slots.{FreeSlot, get_free_slot_in_global-FreeSlot}
use tinykernel.Fs.Reading.{blocks_to_read}
use tinykernel.Fs.Reading.Blocks.{Collected, blocks_to_read-Collected}
use tinykernel.Fs.Writing.{file_write}
use tinykernel.Fs.Writing.Whole.{HasBlocks, Stored}
use tinykernel.Fs.Writing.Append.{file_write-Stored}
use tinykernel.Fs.Removal.{count_indirect}
use tinykernel.Fs.Removal.Endless.{count_indirect-endless}
use tinykernel.Fs.Paths.{
  path_depth_cnt, path_parse, parse_name, skip_slashes, store_name, depth_loop,
}
use tinykernel.Fs.Paths.Components.{components, depth_of, IsText, path_depth_cnt-depth}
use tinykernel.Fs.Calls.{sys_lseek}
use tinykernel.Fs.Calls.Seeking.{word_of, target, base_of, sought, sys_lseek-sought}
use tinykernel.Fs.Format.{new_super_block, partition_format, mount_partition}
use tinykernel.Fs.Format.Layout.{IsLayout, new_super_block-IsLayout, formatted, formatted-test}
use tinykernel.Fs.Format.Mounted.{IsMounted, mount_partition-IsMounted}

abbrev zeros : ℕ → ℕ
zeros i = 0

inside : IsInside partition
inside = (omega arith, omega arith)

inode_sync-Replaced_example :
    Replaced partition
      (u8 1)
      (inode_byte (pure_inode file_inode))
      disk
      (inode_sync partition file_inode disk)
inode_sync-Replaced_example = inode_sync-Replaced partition inside file_inode disk

words : IsWords file_inode
words = record { no = omega arith; size = omega arith; sector = λ j small. ground arith }

load_inode-inode_sync_example :
    (disk' : Disk) × (inode' : Inode) × (inode_sync partition file_inode disk ≡ ok disk')
    × (load_inode partition 1 disk' ≡ ok inode')
    × ReadBack file_inode inode'
load_inode-inode_sync_example =
    load_inode-inode_sync partition file_inode disk inside (omega arith) words

block_bitmap_alloc-AllocatedBlock_example :
    (((l : ℕ) → IsBlock partition l → block_used partition l ≡ true)
      × (block_bitmap_alloc partition ≡ panic))
    ⊎ AllocatedBlock partition (block_bitmap_alloc partition)
block_bitmap_alloc-AllocatedBlock_example =
    block_bitmap_alloc-AllocatedBlock partition bitmap-HasBytes bitmap-IsSmall

synced : IsSynced system
synced i small = ground (arith, small)

blocks : (i : ℕ) → i < 140 → IsEntry partition (if ltb i 12 then file_inode.i_sectors i else 0)
blocks i small = elim (dec_lt 0 i) [
  | yes later ↦ inl (ground (arith, later))
  | no first ↦ let e : i ≡ 0 = omega arith in rw e (inr (omega arith, omega arith, omega arith))
]

release_all-Freed_example :
    (fs' : FileSystem) × (release_all file_inode system ≡ ok fs')
    × Freed (owned_bit 612 file_inode disk) system fs'
release_all-Freed_example =
    release_all-Freed file_inode system bitmap-HasBytes synced (omega arith) (omega arith)
      (inl refl) blocks

get_free_slot_in_global-FreeSlot_instance :
    FreeSlot system.file_table 3 (get_free_slot_in_global system)
get_free_slot_in_global-FreeSlot_instance = get_free_slot_in_global-FreeSlot system

blocks_to_read-Collected_example :
    Collected disk file_inode 0 0 (blocks_to_read disk file_inode 0 0 zeros)
blocks_to_read-Collected_example =
    blocks_to_read-Collected disk file_inode 0 0 zeros (omega arith) (omega arith)
      (λ h. absurd (omega (arith, h))) (λ h. absurd (omega (arith, h)))

has_blocks : HasBlocks disk partition file_inode (5 + 2)
has_blocks = record {
  apart = λ i j lo hi lo' hi' e. omega (arith, hi, hi');
  in_data = λ i small. ground (arith, small);
  table_apart = λ h. absurd (omega (arith, h));
  table_in_data = λ h. absurd (omega (arith, h));
  reach = λ i small. ground (arith, small);
  table_reach = λ h. absurd (omega (arith, h));
}

file_write-Stored_example :
    Stored 0x2000 2 zeros disk file_inode (file_write 3 3 0x2000 2 zeros system)
file_write-Stored_example =
    file_write-Stored 3 3 0x2000 2 zeros (λ i. 0) (λ i. 0) system (omega arith) refl refl
      (λ e. omega (arith, e)) (λ h. absurd (omega (arith, h))) refl (omega arith) has_blocks inside
      (omega arith)

count_indirect-endless_example : count_indirect 5 zeros 12 0 ≡ none
count_indirect-endless_example = count_indirect-endless 5 zeros 12 0 (omega arith)

-- "/a/bc"
abbrev path : List ℕ
path = 47 ∷ 97 ∷ 47 ∷ 98 ∷ 99 ∷ []

path-IsText : IsText path
path-IsText = (
  (λ e. omega (arith, e)),
  (
    (λ e. omega (arith, e)),
    ((λ e. omega (arith, e)), ((λ e. omega (arith, e)), ((λ e. omega (arith, e)), tt))),
  ),
)

path_depth_cnt-depth_example : path_depth_cnt 9 7 path ≡ some (depth_of 7 (components path))
path_depth_cnt-depth_example =
    path_depth_cnt-depth 9 7 path path-IsText (omega arith, (omega arith, tt)) (omega arith)

depth_two : path_depth_cnt 9 7 path ≡ some 2
unfolding path_depth_cnt path_parse parse_name skip_slashes depth_loop store_name
depth_two = refl

leads : fd_local2global 3 task ≡ ok 3
unfolding fd_local2global
leads = refl

sys_lseek-sought_example :
    sys_lseek (some 3) (word_of true 1) 3 task system
    ≡ ok (sought 3 open_file 5 system (target (base_of 3 2 5) true 1))
sys_lseek-sought_example =
    sys_lseek-sought 3 3 0x2000 1 3 true task system (omega arith) (omega arith) leads refl
      (omega arith) (omega arith) (omega arith)

new_super_block-IsLayout_instance : IsLayout 0 2000 (new_super_block 0 2000)
new_super_block-IsLayout_instance = new_super_block-IsLayout 0 2000 (omega arith) (omega arith)

formatted-test_instance : bitmap_scan_test (formatted 1388 (omega arith)) 1388 ≡ false
formatted-test_instance = formatted-test 1388 (omega arith) 1388 (omega arith)

mount_partition-IsMounted_example :
    (disk' : Disk) × (part : Partition) × (partition_format zeros (some zeros) 0 2000 disk
      ≡ ok disk')
    × (mount_partition (some zeros) (some zeros) (some zeros) (some zeros) 0 2000 disk' ≡ ok part)
    × IsMounted zeros 0 2000 disk (omega arith) (omega arith) part
mount_partition-IsMounted_example =
    mount_partition-IsMounted zeros 0 2000 disk (omega arith) (omega arith) zeros zeros zeros zeros
      zeros (omega arith)
