-- ===== src/Recovery.antt =====
-- app/db/schema_upgrade/engine_core.py: `backup_files`, and `recover_incomplete_manifests`, which undoes
-- an upgrade that did not finish. The files are a function from paths to contents; the file name of a
-- path and the checksum of a content are parameters. Work directories are left out.
pub mod Restored
use token_board.Base.{
  ℕ, Bool, true, false, ◌&&◌, ◌||◌, not, Option, none, some, List, [], ◌∷◌, ◌==◌, if◌then◌else◌,
  Result, ok, err, upgrade_error, ◌>>=◌,
}

abbrev pub Files : Type 0
Files = ℕ → Option ℕ

-- A file is written, or removed.
unfoldable pub put_file : ℕ → Option ℕ → Files → Files
put_file path content files = λ p. if p == path then content else files p

-- What a manifest says of one file: its path, and the name and checksum of its backup if it existed.
pub record Backup : Type 0 where
  pub source : ℕ
  pub backup : Option (ℕ × ℕ)

pub data Stage : Type 0 where
  running complete recovered_rollback : Stage

-- A manifest with its backup directory.
pub record Manifest : Type 0 where
  pub stage : Stage
  pub backups : List Backup
  pub directory : Files

module _ (name checksum : ℕ → ℕ) where
  unfoldable pub back_up : ℕ → Option ℕ → Files → Files × Backup
  unfolding put_file
  back_up path none directory = (directory, record { source = path; backup = none })
  back_up path (some c) directory = (
    put_file (name path) (some c) directory,
    record { source = path; backup = some (name path, checksum c) },
  )

  -- The loop of `backup_files`.
  unfoldable pub backup_files : List ℕ → Files → Files → Files × List Backup
  unfolding back_up
  backup_files [] files directory = (directory, [])
  backup_files (p ∷ ps) files directory =
      let (directory', b) = back_up p (files p) directory in
      let (directory'', bs) = backup_files ps files directory' in (directory'', b ∷ bs)

module _ (checksum : ℕ → ℕ) where
  unfoldable pub restore : Files → Backup → Files → Result Files
  unfolding put_file
  restore directory b files = elim b.backup [
    | none ↦ ok (put_file b.source none files)
    | some (n, sum) ↦ elim (directory n) [
      | none ↦ err upgrade_error
      | some c ↦
          if checksum c == sum then ok (put_file b.source (some c) files) else err upgrade_error
    ]
  ]

  unfoldable pub restore_all : Files → List Backup → Files → Result Files
  unfolding restore
  restore_all directory [] files = ok files
  restore_all directory (b ∷ bs) files =
      restore directory b files >>= λ files'. restore_all directory bs files'

  -- One manifest, as it is left with the files; one that failed stays as it is, and one without backups is
  -- marked too.
  unfoldable pub recover_manifest : Manifest → Files → Result (Manifest × Files)
  unfolding restore_all
  recover_manifest m files = elim m.stage [
    | running ↦ restore_all m.directory m.backups files >>= λ files'.
        ok (record m { stage = recovered_rollback }, files')
    | complete ↦ ok (m, files)
    | recovered_rollback ↦ ok (m, files)
  ]
