-- ===== src/Recovery/Restored.antt =====
-- A recovery restores what was backed up.
use token_board.Base.{
  ℕ, ◌≡◌, refl, sym, ap, ◌∙◌, Bool, true, false, ◌&&◌, ◌||◌, not, Option, none, some, List, [], ◌∷◌,
  ◌==◌, if◌then◌else◌, ok, Bool-cases, arith, inl, inr,
}
use token_board.Recovery.{
  Files, put_file, running, recovered_rollback, Manifest, back_up, backup_files, restore,
  restore_all, recover_manifest,
}

abbrev pub is_among : ℕ → List ℕ → Bool
is_among x [] = false
is_among x (p ∷ ps) = (x == p) || is_among x ps

module _ (name checksum : ℕ → ℕ) where
  abbrev is_name : ℕ → List ℕ → Bool
  is_name n [] = false
  is_name n (p ∷ ps) = (n == name p) || is_name n ps

  -- No two paths have the same file name.
  abbrev pub have_names : List ℕ → Bool
  have_names [] = true
  have_names (p ∷ ps) = not (is_name (name p) ps) && have_names ps

  back_up_other :
      (n p : ℕ) (o : Option ℕ) (directory : Files)
      → (n == name p) ≡ false
      → (back_up name checksum p o directory).0 n ≡ directory n
  unfolding back_up
  back_up_other n p none directory h = refl
  back_up_other n p (some c) directory h = rw h refl

  backup_files_other :
      (n : ℕ) (ps : List ℕ) (files directory : Files)
      → is_name n ps ≡ false
      → (backup_files name checksum ps files directory).0 n ≡ directory n
  unfolding backup_files
  backup_files_other n [] files directory h = refl
  backup_files_other n (p ∷ ps) files directory h =
      backup_files_other n ps files (back_up name checksum p (files p) directory).0 (ground arith)
      ∙ back_up_other n p (files p) directory (ground arith)

  -- One backup, restored from a directory that still has it.
  restore-back_up :
      (p : ℕ) (o : Option ℕ) (directory later files : Files)
      → later (name p) ≡ (back_up name checksum p o directory).0 (name p)
      → restore checksum later (back_up name checksum p o directory).1 files
        ≡ ok (put_file p o files)
  unfolding restore back_up put_file
  restore-back_up p none directory later files h = refl
  restore-back_up p (some c) directory later files h =
      let here : (name p == name p) ≡ true = ground arith in
      let found : later (name p) ≡ some c = rw here at h in
      let same : (checksum c == checksum c) ≡ true = ground arith in
      rw (found, restore) (rw same refl)

  if_same : (b : Bool) {c d : Option ℕ} → c ≡ d → (if b then c else d) ≡ c
  if_same true e = refl
  if_same false e = sym e

  put_restored :
      (files changed : Files) (p x : ℕ) (b : Bool)
      → (if b then files x else put_file p (files p) changed x)
        ≡ (if (x == p) || b then files x else changed x)
  unfolding put_file
  put_restored files changed p x b = elim (Bool-cases (x == p)) [
    | inl same ↦
        let e : x ≡ p = ground arith in
        let both : files x ≡ files p = ap files e in rw same (if_same b both)
    | inr other ↦ rw other (ground arith)
  ]

  restore_all_backups :
      (ps : List ℕ) (files directory : Files) (changed : Files)
      → have_names ps ≡ true
      → (restored : Files) × (restore_all checksum
            (backup_files name checksum ps files directory).0
            (backup_files name checksum ps files directory).1
            changed
          ≡ ok restored)
        × ((x : ℕ) → restored x ≡ (if is_among x ps then files x else changed x))
  unfolding backup_files restore_all
  restore_all_backups [] files directory changed h = (changed, refl, (λ x. refl))
  restore_all_backups (p ∷ ps) files directory changed h =
      let directory' : Files = (back_up name checksum p (files p) directory).0 in
      let (restored, e, same) =
        restore_all_backups ps files directory' (put_file p (files p) changed) (ground arith) in
      let kept = backup_files_other (name p) ps files directory' (ground arith) in
      let first =
        restore-back_up p (files p) directory (backup_files name checksum ps files directory').0
          changed kept in
      (restored, rw first e, (λ x. same x ∙ put_restored files changed p x (is_among x ps)))

  -- An upgrade that stops at any point is undone: after a backup of files with different names, whatever
  -- has been done to those files since, the recovery of the unfinished manifest returns, marks it and
  -- gives every file the content, or the absence, that it had at the backup.
  pub recover_manifest_restores :
      (ps : List ℕ) (files changed : Files)
      → have_names ps ≡ true
      → ((x : ℕ) → is_among x ps ≡ false → changed x ≡ files x)
      → (m : Manifest) × (restored : Files) × (recover_manifest checksum
            (record {
              stage = running;
              backups = (backup_files name checksum ps files (λ n. none)).1;
              directory = (backup_files name checksum ps files (λ n. none)).0;
            })
            changed
          ≡ ok (m, restored))
        × (m.stage ≡ recovered_rollback)
        × ((x : ℕ) → restored x ≡ files x)
  unfolding recover_manifest
  recover_manifest_restores ps files changed h untouched =
      let (restored, e, same) = restore_all_backups ps files (λ n. none) changed h in
      (
        record {
          stage = recovered_rollback;
          backups = (backup_files name checksum ps files (λ n. none)).1;
          directory = (backup_files name checksum ps files (λ n. none)).0;
        },
        restored,
        rw e refl,
        refl,
        λ x. same x ∙ elim (Bool-cases (is_among x ps)) [
          | inl among ↦ rw among refl
          | inr other ↦ rw other (untouched x other)
        ],
      )
