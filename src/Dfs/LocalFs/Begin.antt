-- ===== src/Dfs/LocalFs/Begin.antt =====
-- The file system of a datanode of exta2.c that was just made, and the directory "/" that the first
-- write makes.
use class_projects.Base.{
  ℕ, ◌*◌, ◌≤◌, ◌<◌, ◌≡◌, ◌⊎◌, ◌∙◌, refl, true, false, arith, [], ◌∷◌, inl, inr,
}
use class_projects.Base.Names.{Name}
use class_projects.Base.Bytes.{Bytes}
use class_projects.Base.Run.{Returns, returns, mono}
use class_projects.Fs.{Sfs, sfs_block_size, sfs_mkdir}
use class_projects.Fs.Dirs.{HasDirs, first_named, sfs_mkdir-existing}
use class_projects.Fs.Dirs.Last.{AreUsed}
use class_projects.Fs.Dirs.New.{sfs_mkdir-new}
use class_projects.Fs.Freemap.{used}
use class_projects.Fs.Image.{IsFormatted, sfs_mkfs-formats}
use class_projects.Dfs.LocalFs.{slash, local_init_fs}
use class_projects.Dfs.LocalFs.Reads.{first_named-one}
use class_projects.Dfs.LocalFs.Holds.{Holds, IsIdle}

-- No directory is there yet, and `left` blocks will find room.
pub record IsBlank (fs : Sfs) (n left : ℕ) : Type 0 where
  pub formatted : IsFormatted fs
  pub none_there : HasDirs fs.fh []
  pub size : fs.fh.size ≡ 1025 * sfs_block_size
  pub full : used fs.freemap 0 ≡ true
  pub free : (j : ℕ) → 2 ≤ j → used fs.freemap j ≡ false
  pub no_block : n ≡ 0
  pub room : left ≤ 7

-- The file system keeps `n` blocks, and there is room for `left` more.
abbrev pub Represents : Sfs → ℕ → ℕ → (ℕ → Name) → (ℕ → Bytes) → Type 0
Represents fs n left names contents =
    IsBlank fs n left
    ⊎ ((d : ℕ) × (m : ℕ) × (owner : ℕ → ℕ) × Holds fs.fh fs.freemap d m n left owner names contents)

pub local_init_fs-IsBlank :
    (fs : Sfs) → Returns (λ _ s. IsIdle s × IsBlank s 0 7) (local_init_fs fs)
unfolding local_init_fs
local_init_fs-IsBlank fs =
    mono (sfs_mkfs-formats (record fs { fh = record { size = 0; byte = λ _. 0 } }))
      (λ _ s (formatted, _, _, none_there, size, _, map, closed, _). (
        record { words = formatted.words; no_open = closed 0 (omega arith) },
        record {
          formatted = formatted;
          none_there = none_there;
          size = omega (arith, size);
          full = map 0;
          free = λ j h. map j ∙ ground arith;
          no_block = refl;
          room = omega arith;
        },
      ))

-- The directory is there after `sfs_mkdir`, whether it was before or not.
pub sfs_mkdir-Holds :
    (k : ℕ) (dir : Bytes) (fs : Sfs) (n left : ℕ) (names : ℕ → Name) (contents : ℕ → Bytes)
    → 1 < k
    → IsIdle fs
    → Represents fs n left names contents
    → Returns
        (λ _ s.
          IsIdle s
          × (d : ℕ) × (m : ℕ) × (owner : ℕ → ℕ) × Holds s.fh s.freemap d m n left owner names
              contents)
        (sfs_mkdir k dir slash fs)
unfolding first_named AreUsed
sfs_mkdir-Holds k dir fs n left names contents lt idle (inr (d, m, owner, holds)) =
    let is_first = first_named-one fs.fh d slash holds.small holds.dir.whole holds.is_slash in
    let there =
      sfs_mkdir-existing k slash (d ∷ []) dir fs (omega arith) holds.dirs lt
        (λ e. omega (arith, e, is_first, holds.dir.behind)) in
    rw there (returns (record { words = idle.words; no_open = idle.no_open }, d, m, owner, holds))
sfs_mkdir-Holds k dir fs n left names contents lt idle (inl blank) =
    mono
      (sfs_mkdir-new k 2 [] slash dir fs (omega arith) blank.none_there (omega arith) refl tt
        blank.formatted (omega (arith, blank.size)) blank.full
        (omega arith, (λ j h h'. blank.free j h)) (omega (arith, blank.size)))
      (λ _ s (_, b, a).
        let formatted = a.formatted blank.formatted.blocks in
        let size : s.fh.size ≡ 1025 * sfs_block_size = a.size ∙ blank.size in
        (
          record { words = formatted.words; no_open = rw a.fdtable idle.no_open },
          b,
          3,
          (λ _. 0),
          record {
            small = omega arith;
            inside = omega (arith, blank.room);
            in_map = omega (arith, blank.room);
            bytes = formatted.bytes;
            one = formatted.blocks;
            full = a.marked 0 blank.full;
            dir = record {
              whole = omega (arith, a.below);
              behind = a.behind;
              in_use = a.taken;
              tag = refl;
            };
            dirs = a.dirs;
            is_slash = a.named;
            free = λ j h h'. a.later j (omega arith) ∙ blank.free j (omega arith);
            room = omega (arith, blank.room, blank.no_block);
            vacant = λ j h h'. a.empty j h';
            files = λ j h. absurd (omega (arith, blank.no_block));
            texts = λ j h. absurd (omega (arith, blank.no_block));
            short = λ j h. absurd (omega (arith, blank.no_block));
            distinct = λ i j h h' e. absurd (omega (arith, blank.no_block));
          },
        ))
