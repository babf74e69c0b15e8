-- ===== src/Analysis/Counts.antt =====
-- src/analysis.rs `Options`, `RunCounts` and `Coverage`. A count is a `usize` that grows by one for one
-- finding and does not wrap.
use taphonomy.Prelude.{
  ℕ, ◌+◌, ◌-◌, Bool, true, false, Option, none, some, List, ◌==◌, if◌then◌else◌,
}

pub record Options (PathBuf : Type 0) : Type 0 where
  pub recover : Bool
  pub reference : Option (List ℕ)
  pub output : Option PathBuf

pub record RunCounts : Type 0 where
  pub volumes_analysed : ℕ
  pub table_unread : ℕ
  pub table_rejected : ℕ
  pub partitions_anomalous : ℕ
  pub gpt : ℕ
  pub partition_unread : ℕ
  pub unidentified : ℕ
  pub unsupported : ℕ
  pub boot_rejected : ℕ
  pub root_unread : ℕ
  pub directories_unread : ℕ
  pub listings_may_continue : ℕ
  pub orphan_search_stopped : ℕ
  pub not_assessed : ℕ
  pub not_extracted : ℕ
  pub not_delivered : ℕ
  pub free_runs : ℕ
  pub refused : ℕ
  pub matched : ℕ
  pub empty : ℕ
  pub reserved_cluster : ℕ
  pub run_out_of_range : ℕ

-- `RunCounts::default`
abbrev pub no_counts : RunCounts
no_counts = record {
  volumes_analysed = 0;
  table_unread = 0;
  table_rejected = 0;
  partitions_anomalous = 0;
  gpt = 0;
  partition_unread = 0;
  unidentified = 0;
  unsupported = 0;
  boot_rejected = 0;
  root_unread = 0;
  directories_unread = 0;
  listings_may_continue = 0;
  orphan_search_stopped = 0;
  not_assessed = 0;
  not_extracted = 0;
  not_delivered = 0;
  free_runs = 0;
  refused = 0;
  matched = 0;
  empty = 0;
  reserved_cluster = 0;
  run_out_of_range = 0;
}

unfoldable pub gaps : RunCounts → ℕ
gaps c =
    c.table_unread + c.table_rejected + c.partitions_anomalous + c.gpt + c.partition_unread
    + c.unidentified + c.unsupported + c.boot_rejected + c.root_unread + c.not_assessed
    + c.not_extracted + c.not_delivered + c.directories_unread + c.listings_may_continue
    + c.orphan_search_stopped

pub data Coverage : Type 0 where
  complete incomplete nothing_analysed : Coverage

unfoldable pub coverage : RunCounts → Coverage
coverage c =
    if gaps c == 0
    then complete
    else if c.volumes_analysed == 0
    then nothing_analysed
    else incomplete

unfoldable pub is_given : Option (List ℕ) → Bool
is_given none = false
is_given (some reference) = true

module _ {PathBuf : Type 0} (options : Options PathBuf) (c : RunCounts) where
  -- `saturating_sub`
  unfoldable pub artifacts : ℕ
  artifacts = if options.recover then c.free_runs - c.not_extracted else 0

  unfoldable pub not_read : ℕ
  not_read = if options.recover then 0 else c.free_runs

  unfoldable pub differed : ℕ
  differed = if is_given options.reference then artifacts - c.matched else 0
