-- ===== src/Dfs/Namenode/Search.antt =====
-- Which place of the table of files a request is about, and which handler it goes to.
use class_projects.Base.{ℕ, ◌<◌, ◌≡◌, true, false, Option, none, some, arith}
use class_projects.Base.Names.{Name}
use class_projects.Base.Run.{done, and_then}
use class_projects.Dfs.Types.{max_file_count, ClientRequest}
use class_projects.Dfs.Namenode.{
  Namenode, is_named, is_empty, find_image, new_image, assign_receivers, get_file_receivers,
  get_file_location, extend_image, get_file_update_point, requests_dispatcher, file_reply,
}
use class_projects.Dfs.Namenode.Files.{find_image-first}

-- Every place holds another file than `name`.
abbrev pub IsNew : Name → Namenode → Type 0
IsNew name nm = (k : ℕ) → k < max_file_count → is_named name (nm.file_images k) ≡ false

-- The first place that holds `name`.
abbrev pub IsAt : Name → ℕ → Namenode → Type 0
IsAt name i nm =
    (i < max_file_count)
    × (is_named name (nm.file_images i) ≡ true)
    × ((k : ℕ) → k < i → is_named name (nm.file_images k) ≡ false)

abbrev pub IsFirstEmpty : ℕ → Namenode → Type 0
IsFirstEmpty i nm =
    (i < max_file_count)
    × (nm.file_images i ≡ none)
    × ((k : ℕ) → k < i → is_empty (nm.file_images k) ≡ false)

module _ (name : Name) (i : ℕ) (nm : Namenode) where
  pub find-IsAt :
      IsAt name i nm → find_image (is_named name) max_file_count 0 nm.file_images ≡ some i
  find-IsAt (lt, here, before) =
      find_image-first (is_named name) max_file_count 0 i nm.file_images (omega arith) (omega arith)
        here (λ k _ h. before k h)

-- The handlers, by what the search finds.
module _ (request : ClientRequest) (nm : Namenode) where
  abbrev pub found : Option ℕ
  found = find_image (is_named request.file_name) max_file_count 0 nm.file_images

  abbrev pub vacant : Option ℕ
  vacant = find_image is_empty max_file_count 0 nm.file_images

  pub receivers_at :
      {i : ℕ}
      → found ≡ some i
      → get_file_receivers request nm ≡ assign_receivers i request (nm.file_images i) nm
  unfolding get_file_receivers
  receivers_at h = rw (h, get_file_receivers)

  pub receivers_vacant :
      {i : ℕ}
      → found ≡ none
      → vacant ≡ some i
      → get_file_receivers request nm ≡ assign_receivers i request (some (new_image request)) nm
  unfolding get_file_receivers
  receivers_vacant h h' = rw (h, get_file_receivers, h')

  pub location_at :
      {i : ℕ} → found ≡ some i → get_file_location request nm ≡ done (nm.file_images i) nm
  unfolding get_file_location
  location_at h = rw (h, get_file_location)

  pub update_at :
      {i : ℕ}
      → found ≡ some i
      → get_file_update_point request nm ≡ extend_image i request (nm.file_images i) nm
  unfolding get_file_update_point
  update_at h = rw (h, get_file_update_point)

  pub receivers_full : found ≡ none → vacant ≡ none → get_file_receivers request nm ≡ done none nm
  unfolding get_file_receivers
  receivers_full h h' = rw (h, get_file_receivers, h')

  pub location_none : found ≡ none → get_file_location request nm ≡ done none nm
  unfolding get_file_location
  location_none h = rw (h, get_file_location)

  pub update_none : found ≡ none → get_file_update_point request nm ≡ done none nm
  unfolding get_file_update_point
  update_none h = rw (h, get_file_update_point)

-- A request goes to the handler of its type.
module _ (request : ClientRequest) (nm : Namenode) where
  pub dispatch_read :
      request.req_type ≡ 0
      → requests_dispatcher request nm ≡ and_then (get_file_location request nm) file_reply
  unfolding requests_dispatcher
  dispatch_read e = ground arith

  pub dispatch_write :
      request.req_type ≡ 1
      → requests_dispatcher request nm ≡ and_then (get_file_receivers request nm) file_reply
  unfolding requests_dispatcher
  dispatch_write e = ground arith
