-- ===== src/Storage/Attach/Transaction/Backups.antt =====
-- What `ensure_backup` keeps, and what `restore` makes of it later.
use ontobdc_core.Prelude.{String, Option, some, List}
use ontobdc_core.Storage.Attach.Transaction.{FileSystem, Parameters, Plan}
use ontobdc_core.Storage.Attach.Transaction.Files.{FollowsPosix}

module _ {E : Type 0} (files : FileSystem E) (parameters : Parameters E)
    (contents : E → String → Option String) (posix : FollowsPosix files contents) where
  abbrev with_backups : Plan → String → List (String × String) → Plan
  with_backups plan directory entries = record plan {
    backup_dir = directory;
    backups = some entries;
  }
