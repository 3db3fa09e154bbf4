-- ===== src/Dfs/Client/Push.antt =====
-- What a push leaves on the datanodes.
use mathlib.Core.Path.{fun_ext}
use class_projects.Base.{
  ℕ, zero, suc, ◌+◌, ◌-◌, ◌*◌, ◌≤◌, ◌<◌, ◌≡◌, ◌≢◌, refl, sym, ap, ◌∙◌, true, false, ◌&&◌, Option,
  none, some, arith, Bool-cases, inl, inr, leb, ◌==◌,
}
use class_projects.Base.Names.{Name, same_name, same_name_refl, same_name→eq}
use class_projects.Base.Bytes.{Bytes, File}
use class_projects.Base.Run.{Run, done, and_then, Returns, returns, bind, mono}
use class_projects.Dfs.Types.{
  dfs_block_size, max_file_blk_count, BlockInfo, FileImage, BlockRequest,
}
use class_projects.Dfs.Datanode
use class_projects.Dfs.Datanode.{Store, read_block, create_block, ext_write_block, ext_read_block}
use class_projects.Dfs.Datanode.Paths.{
  path_in, StoresBlock, ext_write_block-stores, ext_read_block-stored,
}
use class_projects.Dfs.Client.{
  Network, put_store, with_store, ask_datanode, create_request, read_request, push_loop,
}

-- A datanode listens where block `b` lies.
abbrev pub IsReachable : Network → BlockInfo → Type 0
IsReachable net b = (s : Store) × (net.stores b.loc_ip b.loc_port ≡ some s)

-- The datanode of `b` holds the content `c` for it.
abbrev pub Holds : Network → BlockInfo → Bytes → Type 0
Holds net b c =
    (s : Store) × (net.stores b.loc_ip b.loc_port ≡ some s)
    × (s.files (path_in s b.owner_name b.block_id) ≡ some c)

-- To put back the store that was found changes nothing.
put_store-same :
    (ip : Name) (port : ℕ) (s : Store) (net : Network)
    → net.stores ip port ≡ some s
    → put_store ip port s net ≡ net
put_store-same ip port s net e =
    ap (λ (t : Name → ℕ → Option Store). record net { stores = t })
      (fun_ext λ ip'. fun_ext λ port'. elim (Bool-cases (same_name ip ip' && port == port')) [
        | inl same ↦
            let q : ip ≡ ip' = same_name→eq ip ip' (ground arith) in
            let q' : port ≡ port' = ground arith in rw same (cc)
        | inr apart ↦ rw apart
      ])

module _ (junk : Bytes) (local : File) (net : Network) (b : BlockInfo) (s : Store)
    (at : net.stores b.loc_ip b.loc_port ≡ some s) (small : b.block_id < 1000) where
  -- One block is sent and stored.
  ask_create :
      Returns
        (λ r net'.
          (s' : Store) × (net' ≡ put_store b.loc_ip b.loc_port s' net)
          × StoresBlock b.owner_name b.block_id (create_request junk local b).content s s')
        (ask_datanode junk b.loc_ip b.loc_port (create_request junk local b) net)
  unfolding ask_datanode Datanode.requests_dispatcher
  ask_create =
      rw (at, ask_datanode)
        (sent (
          ext_write_block-stores b.owner_name b.block_id (create_request junk local b).content s
            small))
    where
      sent :
          {r : Run Store (Unit {0})}
          → Returns
              (λ _ s'.
                StoresBlock b.owner_name b.block_id (create_request junk local b).content s s')
              r
          → Returns
              (λ _ net'.
                (s' : Store) × (net' ≡ put_store b.loc_ip b.loc_port s' net)
                × StoresBlock b.owner_name b.block_id (create_request junk local b).content s s')
              (with_store b.loc_ip b.loc_port net (and_then r (λ _ s'. done none s')))
      sent (returns {s = s'} p) = returns (s', refl, p)

  -- One block is asked for and sent back.
  pub ask_read :
      (c : Bytes)
      → s.files (path_in s b.owner_name b.block_id) ≡ some c
      → Returns
          (λ r net'.
            (a : BlockRequest) × (r ≡ some a)
            × (a.block_id ≡ b.block_id)
            × ((o : ℕ) → o < dfs_block_size → a.content o ≡ c o)
            × (net' ≡ net))
          (ask_datanode junk b.loc_ip b.loc_port (read_request junk b) net)
  unfolding ask_datanode Datanode.requests_dispatcher
  ask_read c held =
      rw (at, ask_datanode, ext_read_block-stored b.owner_name b.block_id c junk s small held)
        (returns (
          _,
          refl,
          refl,
          (λ o h. let z : o - 0 + 0 ≡ o = omega arith in ground arith),
          put_store-same b.loc_ip b.loc_port s net at,
        ))

-- `c` is block `k` of a local file, as far as the file goes.
abbrev pub IsBlockOf : File → ℕ → Bytes → Type 0
IsBlockOf local k c =
    (o : ℕ)
    → o < dfs_block_size
    → k * dfs_block_size + o < local.size
    → c o ≡ local.byte (k * dfs_block_size + o)

-- The blocks of `f` below `n` belong to `name`, are numbered by their place and are reachable.
abbrev pub IsServed : Network → Name → FileImage → ℕ → Type 0
IsServed net name f n =
    (k : ℕ)
    → k < n
    → ((f.block_list k).owner_name ≡ name)
      × ((f.block_list k).block_id ≡ k)
      × IsReachable net (f.block_list k)

-- The datanodes hold the blocks of `f` below `n`, with the bytes of the local file.
abbrev pub HoldsFile : Network → File → FileImage → ℕ → Type 0
HoldsFile net local f n =
    (k : ℕ) → k < n → (c : Bytes) × Holds net (f.block_list k) c × IsBlockOf local k c

-- Two addresses are the same or not.
module _ (net : Network) (b : BlockInfo) (s s' : Store) (content : Bytes)
    (at : net.stores b.loc_ip b.loc_port ≡ some s)
    (stored : StoresBlock b.owner_name b.block_id content s s') where
  abbrev after : Network
  after = put_store b.loc_ip b.loc_port s' net

  -- At the address of `b` it was `s` that was found before.
  found_there :
      (b' : BlockInfo) {s'' : Store}
      → (same_name b.loc_ip b'.loc_ip && b.loc_port == b'.loc_port) ≡ true
      → net.stores b'.loc_ip b'.loc_port ≡ some s''
      → s'' ≡ s
  found_there b' h e =
      let ip : b.loc_ip ≡ b'.loc_ip = same_name→eq b.loc_ip b'.loc_ip (ground arith) in
      let port : b.loc_port ≡ b'.loc_port = ground arith in cc

  Holds-own : Holds after b content
  Holds-own = (s', ground (arith, same_name_refl b.loc_ip), rw (stored.0) stored.1)

  Holds-other :
      (b' : BlockInfo) (c : Bytes)
      → b'.owner_name ≡ b.owner_name
      → b'.block_id ≢ b.block_id
      → Holds net b' c
      → Holds after b' c
  Holds-other b' c owner ne (s'', e, h) =
      elim (Bool-cases (same_name b.loc_ip b'.loc_ip && b.loc_port == b'.loc_port)) [
        | inl same ↦
            let q : s'' ≡ s = found_there b' same e in
            let h' : s.files (path_in s b.owner_name b'.block_id) ≡ some c = rw (← q, ← owner) h in
            (s', rw same, rw (stored.0, owner) (stored.2 b'.block_id ne ∙ h'))
        | inr apart ↦ (s'', rw apart e, h)
      ]

  IsReachable-after : (b' : BlockInfo) → IsReachable net b' → IsReachable after b'
  IsReachable-after b' (s'', e) =
      elim (Bool-cases (same_name b.loc_ip b'.loc_ip && b.loc_port == b'.loc_port)) [
        | inl same ↦ (s', rw same)
        | inr apart ↦ (s'', rw apart e)
      ]

module _ (junk : Bytes) (local : File) (name : Name) (f : FileImage) where
  -- The rest of a push, from place `i` on.
  pub push_loop-HoldsFile :
      (n i total : ℕ) (net : Network)
      → i + n ≡ total
      → total ≤ max_file_blk_count
      → IsServed net name f total
      → HoldsFile net local f i
      → Returns
          (λ _ net'.
            (net'.namenode ≡ net.namenode)
            × IsServed net' name f total
            × HoldsFile net' local f total)
          (push_loop junk local f n i net)
  unfolding push_loop
  push_loop-HoldsFile zero i total net e fits served held =
      let q : i ≡ total = omega arith in returns (refl, served, λ k h. held k (omega arith))
  push_loop-HoldsFile (suc n) i total net e fits served held =
      let b = f.block_list i in
      let (owner, id, reach) = served i (omega arith) in
      let (s, at) = reach in
      let room : leb max_file_blk_count i ≡ false = ground arith in
      let content = (create_request junk local b).content in
      rw room (
        bind (ask_create junk local net b s at (omega (arith, id))) (λ r net' (s', q, stored).
          mono
            (push_loop-HoldsFile n (i + 1) total net' (omega arith) fits
              (rw q (λ k h.
                let (owner', id', reach) = served k h in
                (
                  owner',
                  id',
                  IsReachable-after net b s s' content at stored (f.block_list k) reach,
                )))
              (rw q (λ k h. elim (Bool-cases (k == i)) [
                | inl z ↦
                    let z' : k ≡ i = ground arith in
                    rw z' (
                      content,
                      Holds-own net b s s' content at stored,
                      λ o ho lt. sent_byte i o id ho lt,
                    )
                | inr z ↦
                    let (c, hold, same) = held k (ground arith) in
                    let (owner', id', _) = served k (omega arith) in
                    (
                      c,
                      Holds-other net b s s' content at stored (f.block_list k) c
                          (owner' ∙ sym owner) (ground arith) hold,
                      same,
                    )
              ])))
            (λ _ net2 (same, served', held'). (same ∙ rw q, served', held'))))
    where
      sent_byte :
          (i o : ℕ)
          → (f.block_list i).block_id ≡ i
          → o < dfs_block_size
          → i * dfs_block_size + o < local.size
          → (create_request junk local (f.block_list i)).content o
            ≡ local.byte (i * dfs_block_size + o)
      sent_byte i o id ho lt =
          let z : o - 0 + i * dfs_block_size ≡ i * dfs_block_size + o = omega arith in
          rw id (ground arith)
