-- ===== src/Lib.antt =====
-- HLKVDS, a key-value store on raw block devices with a fast and a medium tier.
--
-- A write is a KVSlice, which a segment packs with others into one image on a volume. The index maps
-- the digest of a key to the entry of its newest write, and tells the volume of the entry that dies.
-- A segment manager per volume hands out segments and counts what is dead in them; the collector and
-- the migration read the live slices of a sparse segment back and write them to another one. KVDS
-- puts a read cache in front.
--
-- The files, with the code that they model (paths from the root of the repository):
--   SegmentManager     src/SegmentManager.cc: the table of segment stats, Alloc, AllocForGC, Use and
--                      the rest as functions on a record; Get and Set on stats, whose bytes are in MetaStor/Bytes.
--   LinkedList         src/include/LinkedList.h: the chain of a slot as a list with its counter.
--   Utils, Digest, HashEntry, KvSlice
--                      src/Utils.cc (KVTime), src/KeyDigestHandle.cc, the entry classes of
--                      src/include/IndexManager.h, KVSlice of src/Segment.cc.
--   IndexManager       src/IndexManager.cc: UpdateIndex in both forms, RemoveEntry, GetHashEntry and
--                      IsSameInMem on a table of chains, each as one call; Threads has the critical
--                      sections of UpdateIndex and RemoveEntry interleaved; Image has Get and Set.
--   Volume             src/Volume.cc, src/include/Volume.h: offsets and ModifyDeathEntry.
--   Memory             memcpy, memset and packed fields on a byte buffer.
--   Segment            SegBase of src/Segment.cc: TryPut, Put, fillEntryToSlice, copyToDataBuf.
--   LatencyFriendly    SegLatencyFriendly of src/Segment.cc.
--   Gc                 src/GcManager.cc and src/Migrate.cc: loadSegKV and loadKvList in Gc, doMerge
--                      and doMigrate in Gc/Merge.
--   SegForReq          Request and SegForReq of src/Segment.cc; SegForReq/Writers has the shards'
--                      segments with ReqMerge, the timeout thread and the write queue.
--   VolumeIo           Read and Write of src/Volume.cc over the devices (Devices, with its law in
--                      VolumeIo/Device), and what writeDataImmediately and WriteBatchData do with a
--                      segment.
--   SegWrite           SegWrite, updateMeta and the reaper, from the segment's number on.
--   MultiVolume        src/DS_MultiVolume_Impl.cc: the turn of the volumes, writes and reads; Create
--                      and Capacity lay the volumes out and open them, Reserved and Tables have what
--                      is kept of them on disk, and Serve the aggregated writes.
--   Tier               src/Tier.cc and src/DS_MultiTier_Impl.cc: writes of the fast tier with its
--                      migrations, reads by tier; Create and Reserved create and open both
--                      tiers, with what the superblock keeps of them.
--   SuperBlock         src/SuperBlockManager.cc, with the bytes of the page.
--   MetaStor           src/MetaStor.cc over a device: the superblock, the index and the segment tables
--                      as the bytes of their regions (MetaStor/Bytes), written and read.
--   KvdbIter           src/KvdbIter.cc on an index that stays as it is.
--   LruMap             src/include/LRUMap.h and src/include/SLRUMap.h.
--   ReadCache          src/ReadCache.cc: the footprints of keys over a cache map; Lru fills it with
--                      LruMap.
--   Kvds               Insert, Delete, Get and InsertBatch of src/Kvdb_Impl.cc.
--   Tests              concrete inputs.
--
-- Integers are natural numbers with the wrap-around of their C type written out. A function is one
-- call with no other call in between. Where a mutex is held for the whole call that is what the code
-- does; where it is given up in between, the calls of threads are interleaved section by section for
-- the index (IndexManager/Threads), and not for the segment table (Alloc). What the code calls behind
-- an interface is a parameter: the digest of a key, the clock, the device, the data store behind the
-- index (DataStor), the collector behind the data store and the migration behind the fast tier, and
-- the store and the cache behind KVDS (Store, Cache). Threads that work on segments and queues are
-- steps on them, in any order.
--
-- Fuel: the loop of AllocForGC makes at most as many rounds as there are segments while one is free;
-- with nothing free it may not end, so that `none` stands for a call that does not return. The loop
-- that lays out the first device makes as many rounds as it has segments where the tables fit, and
-- does not end where they do not; the loops on Alloc and ForeGC end with ForeGC's failure, except that
-- of SegWrite. allocSegment makes one round per medium volume. The other loops are structural.
--
-- Not modelled: the start and stop of threads, the creation of the metadata regions (CreateMetaData),
-- when the collector and the migration choose to run, the devices, RIPEMD-160.
pub mod Prelude
pub mod SegmentManager
pub mod LinkedList
pub mod Utils
pub mod Digest
pub mod HashEntry
pub mod KvSlice
pub mod IndexManager
pub mod Volume
pub mod Memory
pub mod Segment
pub mod LatencyFriendly
pub mod SegForReq
pub mod Gc
pub mod KvdbIter
pub mod LruMap
pub mod ReadCache
pub mod Kvds
pub mod SuperBlock
pub mod VolumeIo
pub mod SegWrite
pub mod MultiVolume
pub mod Tier
pub mod MetaStor
pub mod Tests
