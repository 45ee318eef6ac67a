-- ===== src/Partition.antt =====
-- source/implementation/x86_64/partition.c and source/interface/partition.h.
--
-- Mbr: the partition table of a master boot record. Ext4 and Fat32: the two formats. Create: the
-- commands that take a free slot and format it. A message that a function prints before it returns
-- is its result here; the progress messages are left out.
pub mod Tests
pub mod Mbr
pub mod Ext4
pub mod Fat32
pub mod Create
pub mod Layout
