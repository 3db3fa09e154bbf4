-- ===== src/Dfs/Namenode/Keeps.antt =====
-- The handlers of requests keep the tables of the namenode consistent.
use class_projects.Base.{
  ℕ, zero, suc, ◌+◌, ◌-◌, ◌≤◌, ◌<◌, ◌≡◌, ◌≢◌, refl, sym, ◌∙◌, Bool, true, false, Option, none, some,
  arith, Bool-cases, Option-cases, inl, inr, ltb, ◌==◌,
}
use class_projects.Base.Names.{Name, same_name_refl, same_name→eq}
use class_projects.Base.Run.{Run, Cmd, done, fault, no_fuel, and_then}
use class_projects.Dfs.Types.{max_file_count, FileImage, ClientRequest}
use class_projects.Dfs.Namenode.{
  Namenode, status, put_at, is_named, is_empty, blocks_for, new_image, find_image, copy_nodes,
  store_image, requests_dispatcher, assign_receivers, extend_image, get_file_receivers,
  get_file_location, get_file_update_point, get_system_information, file_reply,
}
use class_projects.Dfs.Namenode.Files.{find_image-some}
use class_projects.Dfs.Namenode.Search.{
  found, vacant, receivers_at, receivers_vacant, receivers_full, location_at, location_none,
  update_at, update_none,
}
use class_projects.Dfs.Namenode.Placed.{
  ImageIsValid, FilesIsValid, IsConsistent, assign_loop-Assigned,
}

-- A predicate of the result and the state of a command, where it has any.
abbrev pub WhenDone : {S A : Type 0} → (A → S → Type 0) → Run S A → Type 0
WhenDone P (done a s) = P a s
WhenDone P fault = Unit
WhenDone P no_fuel = Unit

unfoldable pub Keeps : {A : Type 0} → Run Namenode A → Type 0
Keeps r = WhenDone (λ _ nm'. IsConsistent nm') r

Keeps-then :
    {A B : Type 0} (r : Run Namenode A) (k : A → Cmd Namenode B)
    → Keeps r
    → ((a : A) (nm : Namenode) → IsConsistent nm → Keeps (k a nm))
    → Keeps (and_then r k)
unfolding Keeps
Keeps-then (done a nm) k c next = next a nm c
Keeps-then fault k c next = tt
Keeps-then no_fuel k c next = tt

file_reply-Keeps :
    (r : Option FileImage) (nm : Namenode) → IsConsistent nm → Keeps (file_reply r nm)
unfolding Keeps
file_reply-Keeps none nm c = c
file_reply-Keeps (some f) nm c = c

-- One place gets another image.
put_at-FilesIsValid :
    (nm : Namenode) (i : ℕ) (g : FileImage)
    → FilesIsValid nm
    → i < max_file_count
    → ImageIsValid nm.dnlist g
    → ((j : ℕ) (f : FileImage) → j ≢ i → nm.file_images j ≡ some f → f.filename ≢ g.filename)
    → FilesIsValid (record nm { file_images = put_at i g nm.file_images })
put_at-FilesIsValid nm i g v lt good apart = record {
  placed = λ j f e. elim (Bool-cases (j == i)) [
    | inl q ↦ ground arith
    | inr q ↦ v.placed j f (rw q at e)
  ];
  unique = λ j k f h e e' same. elim (Bool-cases (j == i)) [
    | inl q ↦ elim (Bool-cases (k == i)) [
      | inl q' ↦ ground arith
      | inr q' ↦
          let z : g ≡ f = let t = rw q at e in cc in
          absurd (apart k h (ground arith) (rw q' at e') (cc))
    ]
    | inr q ↦ elim (Bool-cases (k == i)) [
      | inl q' ↦
          let z : g ≡ h = let t = rw q' at e' in cc in
          absurd (apart j f (ground arith) (rw q at e) (cc))
      | inr q' ↦ v.unique j k f h (rw q at e) (rw q' at e') same
    ]
  ];
  images = λ j f e. elim (Bool-cases (j == i)) [
    | inl q ↦ let z : g ≡ f = let t = rw q at e in cc in rw z at good
    | inr q ↦ v.images j f (rw q at e)
  ];
}

named-filename :
    (name : Name) (o : Option FileImage)
    → is_named name o ≡ true
    → (f : FileImage) × (o ≡ some f) × (f.filename ≡ name)
named-filename name none e = absurd (cc)
named-filename name (some f) e = (f, refl, same_name→eq f.filename name e)

find_image-all :
    (test : Option FileImage → Bool) (n i : ℕ) (images : ℕ → Option FileImage)
    → find_image test n i images ≡ none
    → (k : ℕ) → i ≤ k
    → k < i + n
    → test (images k) ≡ false
unfolding find_image
find_image-all test zero i images e k le lt = absurd (omega arith)
find_image-all test (suc n) i images e k le lt = elim (Bool-cases (test (images i))) [
  | inl here ↦ absurd (ground arith)
  | inr out ↦ (elim (Bool-cases (k == i)) [
    | inl q ↦ let z : k ≡ i = ground arith in rw z out
    | inr q ↦ find_image-all test n (i + 1) images (rw out at e) k (ground arith) (omega arith)
  ])
]

module _ (request : ClientRequest) (nm : Namenode) (c : IsConsistent nm) where
  -- The image at place `i` is given blocks, and no other place has its name.
  module _ (i : ℕ) (f : FileImage) (lt : i < max_file_count)
      (named : f.filename ≡ request.file_name)
      (apart : (j : ℕ) (g : FileImage)
        → j ≢ i
        → nm.file_images j ≡ some g
        → g.filename ≢ request.file_name) where
    store_image-Keeps :
        (r : Option FileImage)
        → ((f' : FileImage)
            → r ≡ some f'
            → ImageIsValid nm.dnlist f' × (f'.filename ≡ request.file_name))
        → Keeps (store_image i r nm)
    unfolding Keeps
    store_image-Keeps none good = tt
    store_image-Keeps (some f') good =
        let (valid, named') = good f' refl in
        record {
          awake = c.awake;
          nodes = record {
            counted = c.nodes.counted;
            last_empty = c.nodes.last_empty;
            own_place = c.nodes.own_place;
          };
          files =
              put_at-FilesIsValid nm i f' c.files lt valid
                (λ j g ne e q. apart j g ne e (q ∙ named'));
        }

    assign_receivers-Keeps : Keeps (assign_receivers i request (some f) nm)
    unfolding assign_receivers
    assign_receivers-Keeps =
        let count = blocks_for request.file_size in
        store_image-Keeps _ (λ f' e.
          let a =
            assign_loop-Assigned nm request.file_name c.nodes count 0 f.blocknum
              (record f { blocknum = count }) f' e in
          let z : f'.filename ≡ request.file_name = a.filename ∙ named in
          (
            (
              omega (arith, a.top, a.blocknum),
              λ k h. rw z (a.blocks k (omega arith) (omega (arith, a.blocknum))),
            ),
            z,
          ))

    extend_image-Keeps : nm.file_images i ≡ some f → Keeps (extend_image i request (some f) nm)
    unfolding extend_image
    extend_image-Keeps old = elim (Bool-cases (ltb f.file_size request.file_size)) [
      | inr q ↦ rw q (unfold Keeps in c)
      | inl q ↦ rw q (
          let count = blocks_for request.file_size in
          let f0 : FileImage = record f { blocknum = count; file_size = request.file_size } in
          let (few, placed) = c.files.images i f old in
          store_image-Keeps _ (λ f' e.
            let a =
              assign_loop-Assigned nm request.file_name c.nodes (count - f.blocknum) f.blocknum
                f.blocknum f0 f' e in
            let z : f'.filename ≡ request.file_name = a.filename ∙ named in
            (
              (
                omega (arith, a.top, a.blocknum, few),
                λ k h. elim (Bool-cases (ltb k f.blocknum)) [
                  | inl before ↦
                      let same = a.kept k (ground arith) in
                      rw (z, same) (rw named at (placed k (ground arith)))
                  | inr after ↦
                      let le : f.blocknum ≤ k = ground arith in
                      rw z (a.blocks k le (omega (arith, a.blocknum)))
                ],
              ),
              z,
            )))
    ]

  get_file_receivers-Keeps : Keeps (get_file_receivers request nm)
  get_file_receivers-Keeps = elim (Option-cases (found request nm)) [
    | inr (i, e) ↦
        let (_, lt, here, _) =
          find_image-some (is_named request.file_name) max_file_count 0 nm.file_images e in
        let (f, at, named) = named-filename request.file_name (nm.file_images i) here in
        rw (receivers_at request nm e, at)
          (assign_receivers-Keeps i f (omega arith) named
            (λ j g ne e' q. ne (c.files.unique j i g f e' at (q ∙ sym named))))
    | inl e ↦ elim (Option-cases (vacant request nm)) [
      | inl e' ↦ rw (receivers_full request nm e e') (unfold Keeps in c)
      | inr (i, e') ↦
          let (_, lt, _, _) = find_image-some is_empty max_file_count 0 nm.file_images e' in
          rw (receivers_vacant request nm e e') (
            assign_receivers-Keeps i (new_image request) (omega arith) refl (λ j g ne at q.
              let out =
                find_image-all (is_named request.file_name) max_file_count 0 nm.file_images e j
                  (omega arith) (c.files.placed j g at) in
              let same = same_name_refl request.file_name in
              absurd (let t = rw (at, q, same) at out in cc)))
    ]
  ]

  get_file_update_point-Keeps : Keeps (get_file_update_point request nm)
  get_file_update_point-Keeps = elim (Option-cases (found request nm)) [
    | inl e ↦ rw (update_none request nm e) (unfold Keeps in c)
    | inr (i, e) ↦
        let (_, lt, here, _) =
          find_image-some (is_named request.file_name) max_file_count 0 nm.file_images e in
        let (f, at, named) = named-filename request.file_name (nm.file_images i) here in
        rw (update_at request nm e, at)
          (extend_image-Keeps i f (omega arith) named
            (λ j g ne e' q. ne (c.files.unique j i g f e' at (q ∙ sym named))) at)
  ]

  get_file_location-Keeps : Keeps (get_file_location request nm)
  unfolding Keeps
  get_file_location-Keeps = elim (Option-cases (found request nm)) [
    | inl e ↦ rw (location_none request nm e) c
    | inr (i, e) ↦ rw (location_at request nm e) c
  ]

  get_system_information-Keeps : Keeps (get_system_information nm)
  unfolding Keeps get_system_information
  get_system_information-Keeps = elim (Option-cases (copy_nodes nm.dncnt 0 nm.dnlist (λ _. none))) [
    | inl e ↦ rw (get_system_information, e) tt
    | inr (s, e) ↦ rw (get_system_information, e) c
  ]

  pub requests_dispatcher-Keeps : Keeps (requests_dispatcher request nm)
  unfolding requests_dispatcher
  requests_dispatcher-Keeps =
      let read =
        Keeps-then (get_file_location request nm) file_reply get_file_location-Keeps
          file_reply-Keeps in
      let write =
        Keeps-then (get_file_receivers request nm) file_reply get_file_receivers-Keeps
          file_reply-Keeps in
      let modify =
        Keeps-then (get_file_update_point request nm) file_reply get_file_update_point-Keeps
          file_reply-Keeps in
      let query =
        Keeps-then (get_system_information nm) (λ s. done (status s)) get_system_information-Keeps
          (λ s nm' c'. unfold Keeps in c') in
      elim (Bool-cases (request.req_type == 0)) [
        | inl q ↦ rw q read
        | inr q ↦ elim (Bool-cases (request.req_type == 1)) [
          | inl q1 ↦ rw (q, q1) write
          | inr q1 ↦ elim (Bool-cases (request.req_type == 2)) [
            | inl q2 ↦ rw (q, q1, q2) query
            | inr q2 ↦ elim (Bool-cases (request.req_type == 3)) [
              | inl q3 ↦ rw (q, q1, q2, q3) modify
              | inr q3 ↦ rw (q, q1, q2, q3) (unfold Keeps in c)
            ]
          ]
        ]
      ]
