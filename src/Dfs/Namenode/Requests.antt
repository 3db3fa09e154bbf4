-- ===== src/Dfs/Namenode/Requests.antt =====
-- The handlers of read, write and modify requests.
use class_projects.Base.{
  ℕ, ◌+◌, ◌-◌, ◌*◌, ◌≤◌, ◌<◌, ◌≡◌, ◌≢◌, refl, ◌∙◌, Option, some, arith, Bool-cases, inl, inr, ltb,
}
use class_projects.Base.Names.{same_name_refl}
use class_projects.Base.Run.{done, Returns, returns, mono}
use class_projects.Dfs.Types.{
  max_file_count, max_file_blk_count, dfs_block_size, FileImage, ClientRequest,
}
use class_projects.Dfs.Namenode.{
  Namenode, put_at, is_named, is_empty, blocks_for, new_image, assign_receivers, get_file_receivers,
  get_file_location, extend_image, get_file_update_point,
}
use class_projects.Dfs.Namenode.Nodes.{IsDense}
use class_projects.Dfs.Namenode.Search.{
  IsNew, IsAt, IsFirstEmpty, find-IsAt, receivers_at, receivers_vacant, location_at, update_at,
}
use class_projects.Dfs.Namenode.Files.{
  IsAssigned, assign_loop-Assigns, assign_missing, find_image-first, find_image-none,
}

-- Enough blocks for `size` bytes, and not one too many.
abbrev pub Covers : ℕ → ℕ → Type 0
Covers blocknum size =
    (size ≤ blocknum * dfs_block_size) × (blocknum * dfs_block_size < size + dfs_block_size)

-- The outcome of the assignment of all blocks of a request to the entry `f` at place `i`.
abbrev pub Receives :
    Namenode → ClientRequest → ℕ → FileImage → Option FileImage → Namenode → Type 0
Receives nm request i f r nm' =
    (f' : FileImage) × (r ≡ some f')
    × (nm' ≡ record nm { file_images = put_at i f' nm.file_images })
    × Covers f'.blocknum request.file_size
    × (f'.filename ≡ f.filename)
    × (f'.file_size ≡ f.file_size)
    × ((k : ℕ)
        → k < f'.blocknum
        → IsAssigned nm request.file_name k (f.blocknum + k) (f'.block_list k))

-- The image of a new file, and what a later read of its name is answered with.
abbrev pub IsWritten : Namenode → ClientRequest → FileImage → Namenode → Type 0
IsWritten nm request f nm' =
    (f.filename ≡ request.file_name)
    × (f.file_size ≡ request.file_size)
    × Covers f.blocknum request.file_size
    × ((k : ℕ) → k < f.blocknum → IsAssigned nm request.file_name k k (f.block_list k))
    × ((read : ClientRequest)
        → read.file_name ≡ request.file_name
        → get_file_location read nm' ≡ done (some f) nm')

module _ (request : ClientRequest) (nm : Namenode) (dense : IsDense nm) (some_node : 0 < nm.dncnt)
    (fits : request.file_size ≤ max_file_blk_count * dfs_block_size) where
  receives :
      (i : ℕ) (f : FileImage)
      → Returns (Receives nm request i f) (assign_receivers i request (some f) nm)
  unfolding assign_receivers
  receives i f =
      let count = blocks_for request.file_size in
      let (f', run, a) =
        assign_loop-Assigns nm request.file_name dense some_node count 0 f.blocknum
          (record f { blocknum = count }) (omega arith) in
      rw run (
        returns (
          f',
          refl,
          refl,
          (omega (arith, a.blocknum), omega (arith, a.blocknum)),
          a.filename,
          a.file_size,
          λ k h.
              let z : 0 + k ≡ k = omega arith in rw z at (a.assigned k (omega (arith, a.blocknum))),
        ))

  location_back :
      (i : ℕ) (f : FileImage)
      → f.filename ≡ request.file_name
      → i < max_file_count
      → IsNew request.file_name nm
      → (read : ClientRequest) → read.file_name ≡ request.file_name
      → let nm' : Namenode = record nm { file_images = put_at i f nm.file_images } in
        get_file_location read nm' ≡ done (some f) nm'
  location_back i f named lt fresh read same =
      location_at read (record nm { file_images = put_at i f nm.file_images }) {i = i}
        (rw same (
          find_image-first (is_named request.file_name) max_file_count 0 i
            (put_at i f nm.file_images) (omega arith) (omega arith)
            (ground (arith, same_name_refl request.file_name)) (λ k _ h. ground (arith, fresh k))))
      ∙ ground arith

  -- The registered datanodes fill their table from its start, there is at least one, and the request
  -- is of at most 100 blocks. A file that is not in the table takes its first empty place `i`, where
  -- the image that is answered is kept, and nothing else changes. The answer lists enough blocks and
  -- not one too many; block `k` has the id `k` and lies on datanode `k` modulo their number; and a
  -- later read of that name is answered with the same list.
  pub get_file_receivers-new :
      (i : ℕ)
      → IsNew request.file_name nm
      → IsFirstEmpty i nm
      → Returns
          (λ r nm'.
            (f : FileImage) × (r ≡ some f)
            × (nm' ≡ record nm { file_images = put_at i f nm.file_images })
            × IsWritten nm request f nm')
          (get_file_receivers request nm)
  get_file_receivers-new i fresh (lt, empty, before) =
      rw
        (receivers_vacant request nm
          (find_image-none (is_named request.file_name) max_file_count 0 nm.file_images
            (λ k _ h. fresh k h))
          (find_image-first is_empty max_file_count 0 i nm.file_images (omega arith) (omega arith)
            (rw empty) (λ k _ h. before k h)))
        (mono (receives i (new_image request)) (λ r nm' (f, e, e', c, named, size, a). (
          f,
          e,
          e',
          (
            named,
            size,
            c,
            (λ k h. let z : 0 + k ≡ k = omega arith in rw z at (a k h)),
            rw e' (location_back i f named lt fresh),
          ),
        )))

  -- The registered datanodes fill their table from its start, there is at least one, and the request
  -- is of at most 100 blocks. A file that is in the table and is written again stays at its place `i`,
  -- keeps its old size there, and gets the blocks that the request needs, with ids from the old number
  -- of blocks on: block `k` of the answer has the id `old blocknum + k`, and lies on datanode `k`
  -- modulo their number. Nothing else changes.
  pub get_file_receivers-again :
      (i : ℕ) (f : FileImage)
      → IsAt request.file_name i nm
      → nm.file_images i ≡ some f
      → Returns (Receives nm request i f) (get_file_receivers request nm)
  get_file_receivers-again i f at e =
      rw (receivers_at request nm (find-IsAt request.file_name i nm at), e) (receives i f)

  -- The registered datanodes fill their table from its start, there is at least one, and the request
  -- is of at most 100 blocks. A modify request with a size above that in the table records it, with
  -- the number of blocks that it needs, which may be below the old one. It leaves the old places of
  -- the list of blocks as they were, and fills those behind them up to the new number, with their
  -- place as id, and on the datanode of the place modulo their number. Any other modify request is
  -- answered with the file as it is. Neither touches another place of the table.
  pub get_file_update_point-grows :
      (i : ℕ) (f : FileImage)
      → IsAt request.file_name i nm
      → nm.file_images i ≡ some f
      → Returns
          (λ r nm'.
            (f' : FileImage) × (r ≡ some f')
            × ((j : ℕ) → j ≢ i → nm'.file_images j ≡ nm.file_images j)
            × (nm'.file_images i ≡ some f')
            × (request.file_size ≤ f.file_size → f' ≡ f)
            × (f.file_size < request.file_size
                → Covers f'.blocknum request.file_size
                  × (f'.file_size ≡ request.file_size)
                  × ((k : ℕ) → k < f.blocknum → f'.block_list k ≡ f.block_list k)
                  × ((k : ℕ)
                      → f.blocknum ≤ k
                      → k < f'.blocknum
                      → IsAssigned nm request.file_name k k (f'.block_list k))))
          (get_file_update_point request nm)
  unfolding extend_image
  get_file_update_point-grows i f at e =
      rw (update_at request nm (find-IsAt request.file_name i nm at), e)
        (elim (Bool-cases (ltb f.file_size request.file_size)) [
          | inr still ↦
              rw still
                (returns (f, refl, (λ j ne. refl), e, (λ h. refl), (λ h. absurd (ground arith))))
          | inl more ↦
              let count = blocks_for request.file_size in
              let f0 : FileImage = record f { blocknum = count; file_size = request.file_size } in
              let (f', run, a) =
                assign_missing nm request.file_name dense some_node count f.blocknum f0
                  (omega arith) in
              rw (more, run)
                (returns (
                  f',
                  refl,
                  (λ j ne. ground arith),
                  (ground arith),
                  (λ h. absurd (ground arith)),
                  (λ _. (
                    (omega (arith, a.blocknum), omega (arith, a.blocknum)),
                    a.file_size,
                    (λ k h. a.kept k (inl h)),
                    (λ k le' h.
                        let z : f.blocknum + (k - f.blocknum) ≡ k = omega arith in
                        rw z at (a.assigned (k - f.blocknum) (omega (arith, a.blocknum)))),
                  )),
                ))
        ])
