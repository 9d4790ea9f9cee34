-- ===== src/Fs/Example.antt =====
-- A small file system on which the theorems are applied: one directory and one open file.
use tinykernel.Base.{false, arith, [], ◌∷◌, none, some, ◌==◌, if◌then◌else◌, ltb}
use tinykernel.Bitmap.{Bitmap}
use tinykernel.Bitmap.Access.{HasBytes}
use tinykernel.Bitmap.Scan.First.{IsSmall}
use tinykernel.Thread.Pcb.{Task, task_running}
use tinykernel.Fs.{Disk, Inode, SuperBlock, Partition, File, FileSystem}

abbrev pub super_block : SuperBlock
super_block = record {
  magic = 0x19590318;
  sec_cnt = 2000;
  inode_cnt = 4096;
  part_lba_base = 0;
  block_bitmap_lba = 2;
  block_bitmap_sects = 1;
  inode_bitmap_lba = 3;
  inode_bitmap_sects = 1;
  inode_table_lba = 4;
  inode_table_sects = 608;
  data_start_lba = 612;
  root_inode_no = 0;
  dir_entry_size = 24;
}

-- The first two bits are set.
abbrev pub bitmap : Bitmap
bitmap = record { btmp_bytes_len = 512; bits = λ i. if i == 0 then 3 else 0 }

pub bitmap-HasBytes : HasBytes bitmap
bitmap-HasBytes i = ground arith

pub bitmap-IsSmall : IsSmall bitmap
bitmap-IsSmall = omega arith

abbrev pub partition : Partition
partition = record {
  start_lba = 0;
  sec_cnt = 2000;
  sb = super_block;
  block_bitmap = bitmap;
  inode_bitmap = bitmap;
  open_inodes = 0x1000 ∷ 0x2000 ∷ [];
}

-- A file of five bytes in the block behind the root directory's.
abbrev pub file_inode : Inode
file_inode = record {
  i_no = 1;
  i_size = 5;
  i_open_cnts = 1;
  write_deny = false;
  i_sectors = λ j. if j == 0 then 613 else 0;
}

abbrev pub dir_inode : Inode
dir_inode = record {
  i_no = 0;
  i_size = 48;
  i_open_cnts = 1;
  write_deny = false;
  i_sectors = λ j. if j == 0 then 612 else 0;
}

-- The sector of the bitmap of blocks holds the bitmap; all else is 9.
abbrev pub disk : Disk
disk s o = if s == 2 then if o == 0 then 3 else 0 else 9

abbrev pub closed_file : File
closed_file = record { fd_pos = 0; fd_flag = 0; fd_inode = none }

abbrev pub open_file : File
open_file = record { fd_pos = 2; fd_flag = 2; fd_inode = some 0x2000 }

abbrev pub system : FileSystem
system = record {
  disk = disk;
  part = partition;
  inodes = λ a. if a == 0x2000 then file_inode else dir_inode;
  root_dir = 0x1000;
  file_table = λ fd. if fd == 3 then open_file else closed_file;
  addresses = λ k. 0x3000;
  buffers = λ k. some (λ i. 0);
}

abbrev pub task : Task
task = record {
  pid = 1;
  status = task_running;
  name = [];
  priority = 31;
  ticks = 31;
  elapsed_ticks = 0;
  fd_table = λ fd. if ltb fd 4 then some fd else none;
  pgdir = 0;
  cwd_inode_nr = 0;
  parent_pid = none;
  exit_status = 0;
  stack_magic = 0x19870916;
}
