-- ===== src/Tests/Recovery.antt =====
-- Two database files, of which one exists when the upgrade begins.
use token_board.Base.{ℕ, ◌≡◌, ◌+◌, refl, false, some, none, ◌∷◌, [], ◌==◌, if◌then◌else◌, ok, arith}
use token_board.Recovery.{
  Files, Manifest, running, recovered_rollback, backup_files, recover_manifest,
}
use token_board.Recovery.Restored.{is_among, recover_manifest_restores}

abbrev name : ℕ → ℕ
name path = path + 100

abbrev checksum : ℕ → ℕ
checksum content = content + 1

abbrev databases : Files
databases p = if p == 5 then some 50 else none

-- The upgrade has rewritten the one and created the other.
abbrev halfway : Files
halfway p = if p == 5 then some 51 else if p == 6 then some 60 else none

untouched : (x : ℕ) → is_among x (5 ∷ 6 ∷ []) ≡ false → halfway x ≡ databases x
untouched x h = ground arith

recover_manifest_restores_example :
    (m : Manifest) × (restored : Files) × (recover_manifest checksum
        (record {
          stage = running;
          backups = (backup_files name checksum (5 ∷ 6 ∷ []) databases (λ n. none)).1;
          directory = (backup_files name checksum (5 ∷ 6 ∷ []) databases (λ n. none)).0;
        })
        halfway
      ≡ ok (m, restored))
    × (m.stage ≡ recovered_rollback)
    × ((x : ℕ) → restored x ≡ databases x)
recover_manifest_restores_example =
    recover_manifest_restores name checksum (5 ∷ 6 ∷ []) databases halfway refl untouched
