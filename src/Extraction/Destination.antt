-- ===== src/Extraction/Destination.antt =====
-- src/extraction.rs `Destination`: the path that an artifact is written to.
pub mod Distinct
use taphonomy.Prelude.{ℕ, zero, suc, ◌+◌, ◌/◌, ◌%◌, Bool, List, [], ◌∷◌, ◌++◌, ltb, if◌then◌else◌}
use taphonomy.Extraction.System.{FileSystem}

-- `directory` is the caller's.
pub record Destination (PathBuf : Type 0) : Type 0 where
  pub directory : PathBuf
  pub partition : ℕ
  pub cluster : ℕ
  pub slot : ℕ

-- How `format!` writes an integer: its decimal digits, before the text that follows. A number takes fewer
-- steps than itself and one.
unfoldable pub digits : ℕ → ℕ → List ℕ → List ℕ
digits zero n rest = rest
digits (suc fuel) n rest =
    let longer = digits fuel (n / 10) ((0x30 + n % 10) ∷ rest) in
    if ltb n 10 then (0x30 + n) ∷ rest else longer

unfoldable pub decimal : ℕ → List ℕ
decimal n = digits (n + 1) n []

-- "p", "-c", "-s", "-first-" and ".bin" around the four numbers
unfoldable pub file_name : ℕ → ℕ → ℕ → ℕ → List ℕ
file_name partition cluster slot first_cluster =
    0x70
    ∷ (decimal partition
        ++ (0x2D
            ∷ 0x63
            ∷ (decimal cluster
                ++ (0x2D
                    ∷ 0x73
                    ∷ (decimal slot
                        ++ (0x2D
                            ∷ 0x66
                            ∷ 0x69
                            ∷ 0x72
                            ∷ 0x73
                            ∷ 0x74
                            ∷ 0x2D
                            ∷ (decimal first_cluster ++ (0x2E ∷ 0x62 ∷ 0x69 ∷ 0x6E ∷ []))))))))

-- `Destination::path`
unfoldable pub path_for :
    {State File PathBuf : Type 0}
    → FileSystem State File PathBuf
    → Destination PathBuf
    → ℕ
    → PathBuf
path_for fs d first_cluster =
    fs.join d.directory (file_name d.partition d.cluster d.slot first_cluster)
