-- ===== src/Lib.antt =====
-- Taphonomy: recovery of deleted files from FAT32 volumes in a disk image, src/*.rs.
--
-- The program reads a partition table, identifies the filesystem of each partition, checks a FAT32
-- boot sector against its partition, enumerates directories along their FAT chains, and offers the
-- files whose directory entries were deleted: it judges the run of clusters that an entry implies,
-- asks the FAT whether those clusters are free, reads them, and writes what it read to a new file. It
-- reports what it finds as events, and counts them. Every part trusts nothing that the
-- evidence says until it is checked, so the theorems are about what holds after the checks, for any
-- bytes.
--
-- The parts, and the files that model them:
--
--   Partition      src/partition.rs. `parse_mbr` on a sector of bytes and the image's sector count. The
--                  loop over the four slots is `parse_slots`, one round of it `judge`, and the tests of
--                  the whole table behind the loop are `finish`. Partition/Bounds, Partition/Table and
--                  Partition/Overlap hold its theorems.
--   Filesystem     src/filesystem.rs, the data of an identification, and `declared_type_matches`.
--   Fat            src/fat.rs. `identify_fat` is `read_geometry` on the fields of `read_bpb`, then the
--                  variant and the observations; the checks of single fields are `check_fields`, in the
--                  source's order. Fat/Geometry holds its theorems.
--   Identify       src/filesystem.rs, `identify`, which calls Fat; its theorem is in Identify/Sound.
--   Fat32          src/fat32.rs. `parse_boot_sector` calls Identify, then `check_declared` and
--                  `check_extent`. Fat32/Sound says what an accepted boot sector satisfies.
--   Evidence       src/evidence.rs, the trait `EvidenceReader`: a record of its method and of what it
--                  obliges an implementor to. All that follows is parametric in a reader, its error
--                  type and the boot sector.
--   Directory      src/fat_directory.rs: Directory/Name (checksums, first-byte recovery, 8.3 names),
--                  Directory/Entry (classification), Directory/Associate (the link of a deleted entry
--                  to its long name), Directory/Offsets (offsets and FAT entries), Directory/Walk
--                  (enumeration), Directory/Deleted (deleted directories) and Directory/Counts.
--   Recovery       src/fat_recovery.rs: `eligibility`, `assess` and `stream`, whose pushes to the writer
--                  are a list of slices. Recovery/Run, Recovery/Assess and Recovery/Content hold its
--                  theorems. Recovery/Extract is `extract`, with the same loop driving the writer, and
--                  Recovery/Extract/Refines compares the two.
--   Extraction     src/extraction.rs: Extraction/System is the file system, a parameter with the state
--                  passed on, and what the source relies on; Extraction/Writer is `ArtifactWriter`, with
--                  Holds, ReadBack, Settled and Aborted for its theorems; Extraction/Destination is the
--                  path of an artifact.
--   Validation     src/validation.rs and src/confidence.rs.
--   Analysis       src/analysis.rs: Analysis/Counts is `RunCounts` and what is derived from it,
--                  Analysis/Events the events, with the sink as the list of those recorded, and
--                  Analysis/Report `report_recovery`; Analysis/Walk is `report_subdirectory`, with
--                  the queue of directories, and Analysis/Walk/Loop the loop over it. Analysis/Tally
--                  describes, apart from the code, what the events add up to; Analysis/Report/Books,
--                  Analysis/Report/Accounted, Analysis/Walk/Listed and Analysis/Walk/Loop/Ends compare
--                  the two.
--   Exfat          src/exfat_boot.rs: Exfat/Checksum, Exfat/Geometry and Exfat/Region are the checks of one
--                  boot region, as `validate_region` makes them; Exfat/Search is `parse_boot_region`, which
--                  reads the main region, the backup, and searches for a backup. `volume_bytes`, a `u128`
--                  in the source, does not wrap, nor do the 64-bit sums of the geometry.
--   Hash           src/hash.rs: digests in hexadecimal (Hash/Hex), and the hasher and `hash_reader`
--                  (Hash/Hasher). The crate sha2 is a parameter, `Sha256`, whose digest is that of the
--                  whole input however it is divided; a reader is the list of what its reads return, so
--                  one that never ends is left out. `none` is the panic of the byte count.
--   Tests          concrete sectors, disks and a file system, with the theorems applied to them.
--   Prelude        Boolean tests, lists, results and machine words, which all parts share.
--
-- Numbers are natural numbers. A sum or product of `u32` or `u64` words that the source leaves
-- unchecked is reduced where it can wrap; checked and saturating operations are functions with their
-- limits. Bytes and words of a sector are below their limits by hypothesis on the sector's bytes. The
-- mutable vectors of a loop are its arguments, and what it pushes is appended to them. Text that only
-- describes an error is a literal, and text read from the evidence is a list of bytes.
--
-- `enumerate`, a `loop` in the source, runs on fuel: one more than the most clusters that it visits. Each
-- round visits one more cluster, and a round that would visit more is an error of the source. The
-- model's error `stuck` stands for the fuel's end. The loop over the directories, `walk`, takes any fuel,
-- and Analysis/Walk/Loop/Ends is about its end. Every other loop is structural recursion on its range.
--
-- Not modelled: src/error.rs, src/lib.rs and src/main.rs; of src/analysis.rs, the orphan search,
-- the root directory and the run over the partitions; in the files above, the rendering of values as
-- text and `EvidenceFile`, which is I/O. The file system and sha2 are not code of the repository: what is known of them are the laws of `FileSystem` and `Sha256`, and that no one else
-- writes to an artifact while it is written.
pub mod Prelude
pub mod Partition
pub mod Filesystem
pub mod Fat
pub mod Identify
pub mod Fat32
pub mod Evidence
pub mod Directory
pub mod Recovery
pub mod Hash
pub mod Extraction
pub mod Validation
pub mod Analysis
pub mod Exfat
pub mod Tests
