-- ===== src/Dfs/LocalFs/Fetch.antt =====
-- A datanode of exta2.c reads a block that it keeps.
use class_projects.Base.{ℕ, ◌+◌, ◌-◌, ◌<◌, ◌≡◌, refl, false, arith, ltb, Bool-cases, inl, inr}
use class_projects.Base.Names.{Name}
use class_projects.Base.Bytes.{Bytes, copy}
use class_projects.Base.Run.{Returns, returns, bind}
use class_projects.Fs.{Sfs}
use class_projects.Fs.Files.{sfs_close}
use class_projects.Fs.Content.Flat.{file_byte, sfs_read-file_byte}
use class_projects.Dfs.Types.{dfs_block_size}
use class_projects.Dfs.LocalFs.{Junk, local_block_path, path_overflows, local_read_block}
use class_projects.Dfs.LocalFs.Holds.{Holds, IsIdle, sfs_open-Opened}

-- The image and the freemap stay, and no file is open.
pub record Rests (fs s : Sfs) : Type 0 where
  pub image : s.fh ≡ fs.fh
  pub freemap : s.freemap ≡ fs.freemap
  pub words : s.freemap_words ≡ fs.freemap_words
  pub closed : (s.fdtable 0).valid ≡ 0

-- The buffer gets the content of the block, and nothing behind it changes.
pub local_read_block-Holds :
    (k : ℕ) (junk : Junk) (filename : Name) (id : ℕ) (buf : Bytes) (fs : Sfs) (d m n left : ℕ)
    (owner : ℕ → ℕ) (names : ℕ → Name) (contents : ℕ → Bytes) (j : ℕ)
    → 1 < k
    → path_overflows filename id ≡ false
    → local_block_path filename id ≡ names j
    → j < n
    → IsIdle fs
    → Holds fs.fh fs.freemap d m n left owner names contents
    → Returns
        (λ buf' s. ((i : ℕ) → buf' i ≡ copy dfs_block_size buf 0 (contents j) 0 i) × Rests fs s)
        (local_read_block k junk filename id buf fs)
unfolding local_read_block sfs_close
local_read_block-Holds k junk filename id buf fs d m n left owner names contents j lt fits path
      there idle holds =
    let at = holds.files j there in
    rw (fits, path)
      (bind
        (sfs_open-Opened d m n left owner names contents fs idle holds j there k junk.dir junk.inode
          lt)
        (λ r s1 (opened, o). rw opened (
          bind
            (sfs_read-file_byte 0 dfs_block_size junk.frame junk.tmp buf junk.bids s1 (omega arith)
              o.file (omega arith) (omega (arith, o.start))
              (omega (arith, o.start, o.size, at.placed.long)))
            (λ r' s2 (_, bytes, behind, same). returns (
              (λ i. elim (Bool-cases (ltb i dfs_block_size)) [
                | inl q ↦
                    let lt' : i < dfs_block_size = ground arith in
                    let z : i - 0 + 0 ≡ i = omega arith in
                    let z' : 0 + i ≡ i = omega arith in
                    let e = rw (o.start, z', o.image, file_byte, o.frame) at (bytes i lt') in
                    let own = at.own i lt' in ground (arith, e, own)
                | inr q ↦ let e = behind i (ground arith) in ground arith
              ]),
              record {
                image = rw same o.image;
                freemap = rw same o.freemap;
                words = rw same o.words;
                closed = refl;
              },
            )))))
