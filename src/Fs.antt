-- ===== src/Fs.antt =====
-- src/fs.c: the file system. Its parts are in the children: the disk and the words of a sector (Disk),
-- the range of sectors of an operation (Bounds), the inode on the disk and the data of a file (Inode),
-- the table of a directory (Children), and the proofs about them.
pub mod Disk
pub mod Bounds
pub mod BoundsLaws
pub mod Inode
pub mod Data
pub mod Room
pub mod Parent
pub mod Persist
pub mod Transfer
pub mod Write
pub mod Children
pub mod Directory
pub mod Relink
pub mod ChildSet
pub mod Tree
pub mod Open
pub mod Child
pub mod Walk
pub mod Records
pub mod ChildrenLaws
