-- ===== src/Dfs/Heartbeat.antt =====
-- How a datanode of datanode/dfs_datanode.c starts and reports, and how namenode/dfs_namenode.c receives
-- the report: `start`, `heartbeat` and a round of `register_datanode`.
use class_projects.Base.{
  ℕ, ◌-◌, ◌<◌, ◌≡◌, ◌≢◌, ◌∙◌, suc, refl, sym, true, false, some, arith, ltb, ◌==◌, if◌then◌else◌,
  inl,
}
use class_projects.Base.Int.{ℤ}
use class_projects.Base.Names.{Name, length}
use class_projects.Base.Bytes.{Bytes, SameBytes}
use class_projects.Base.Run.{Run, Cmd, done, fault, no_fuel, and_then, Returns, returns, mono}
use class_projects.Fs.Word.{u32_end, get_u32, put_u32, get_u32-put_u32, get_u32-put_u32_other}
use class_projects.Fs.Content.Blocks.{get_u32-same}
use class_projects.Dfs.Types.{DatanodeStatus}
use class_projects.Dfs.Namenode.{Namenode, register_datanode}
use class_projects.Dfs.Namenode.Nodes.{NodesIsValid, register_datanode-records}
use class_projects.Dfs.Sockets.{send_data, receive_data}
use class_projects.Dfs.Sockets.Pipe.{Pipe, receive_data-send_data}

-- The globals of a datanode.
pub record Process : Type 0 where
  pub datanode_id : ℕ
  pub datanode_listen_port : ℕ
  pub working_directory : Name

-- `start` up to its thread and its loop: the address of the namenode. The address goes to 32 bytes.
unfoldable pub start_datanode : (Name → ℕ) → ℕ → (ℕ → Name) → Cmd Process Name
start_datanode atoi argc argv p =
    if argc == 5
    then if ltb (length (argv 2)) 32
      then done (argv 2) (record {
        datanode_id = atoi (argv 3);
        datanode_listen_port = atoi (argv 1);
        working_directory = argv 4;
      })
      else fault
    else fault

-- `dfs_cm_datanode_status_t` in memory.
abbrev pub status_size : ℕ
status_size = 8

abbrev pub status_bytes : DatanodeStatus → Bytes → Bytes
status_bytes report junk = put_u32 4 report.datanode_listen_port (put_u32 0 report.datanode_id junk)

abbrev pub status_of : Bytes → DatanodeStatus
status_of b = record { datanode_id = get_u32 b 0; datanode_listen_port = get_u32 b 4 }

abbrev pub status_from : Process → DatanodeStatus
status_from p = record {
  datanode_id = p.datanode_id;
  datanode_listen_port = p.datanode_listen_port;
}

-- A run on one state behind a run on another.
abbrev pub over : {S T A B : Type 0} → Run S A → (A → S → Run T B) → Run T B
over (done a s) k = k a s
over fault k = fault
over no_fuel k = no_fuel

module _ {S : Type 0} where
  -- A round of `heartbeat`, on a connection to the namenode. `k` bounds the calls of `send`.
  unfoldable pub heartbeat : (Bytes → ℕ → ℕ → S → ℤ × S) → ℕ → Bytes → Process → Cmd S (Unit {0})
  heartbeat send k junk p = send_data send k true (status_bytes (status_from p) junk) status_size

  -- A round of `register_datanode` of the namenode, on a connection from address `ip`.
  unfoldable pub accept_report :
      (ℕ → S → (ℤ × Bytes) × S) → ℕ → Bytes → Name → S → Cmd Namenode (Unit {0})
  accept_report recv k junk ip s nm =
      over (receive_data recv k true junk status_size s)
        (λ b _. register_datanode (status_of b) ip nm)

over-Returns :
    {S T A B : Type 0} {P : A → S → Type 0} {Q : B → T → Type 0} {r : Run S A} {k : A → S → Run T B}
    → Returns P r
    → ((a : A) (s : S) → P a s → Returns Q (k a s))
    → Returns Q (over r k)
over-Returns (returns p) next = next _ _ p

over-and_then :
    {S T A B C : Type 0} (r : Run S A) (k : A → S → Run S B) (l : B → S → Run T C)
    → over (and_then r k) l ≡ over r (λ a s. over (k a s) l)
over-and_then (done a s) k l = refl
over-and_then fault k l = refl
over-and_then no_fuel k l = refl

-- The status arrives as it was sent.
status_of-same :
    (report : DatanodeStatus) (junk b : Bytes)
    → report.datanode_id < u32_end
    → report.datanode_listen_port < u32_end
    → SameBytes status_size b (status_bytes report junk)
    → status_of b ≡ report
status_of-same report junk b id port same =
    let first : get_u32 b 0 ≡ report.datanode_id =
      get_u32-same b (status_bytes report junk) 0 8 (omega arith) same
      ∙ get_u32-put_u32_other 4 0 report.datanode_listen_port (put_u32 0 report.datanode_id junk)
          (inl (omega arith))
      ∙ get_u32-put_u32 0 report.datanode_id junk id in
    let second : get_u32 b 4 ≡ report.datanode_listen_port =
      get_u32-same b (status_bytes report junk) 4 8 (omega arith) same
      ∙ get_u32-put_u32 4 report.datanode_listen_port (put_u32 0 report.datanode_id junk) port in
    rw (first, second) refl

-- A datanode that was started with five arguments, whose id is between 1 and 9, reports once over a
-- connection that passes some bytes with each call and on which nothing is under way, and the namenode
-- receives the report: then the namenode has the datanode at the place of its id, with the address of
-- the connection and the port of the first argument, its table is valid and as before at all other
-- places, and it leaves safe mode.
pub accept_report-heartbeat :
    (pipe : Pipe) (k : ℕ) (junk junk' : Bytes) (atoi : Name → ℕ) (argv : ℕ → Name) (ip : Name)
    (p : Process) (nm : Namenode) (c : pipe.State)
    → length (argv 2) < 32
    → 0 < atoi (argv 3)
    → atoi (argv 3) < 10
    → atoi (argv 1) < u32_end
    → status_size < k
    → pipe.taken c ≡ (pipe.content c).size
    → NodesIsValid nm
    → Returns
        (λ _ nm'.
          (nm'.dnlist (atoi (argv 3) - 1)
            ≡ some (record { dn_id = atoi (argv 3); ip = ip; port = atoi (argv 1) }))
          × (nm'.safe_mode ≡ false)
          × NodesIsValid nm'
          × ((j : ℕ) → suc j ≢ atoi (argv 3) → nm'.dnlist j ≡ nm.dnlist j))
        (over (start_datanode atoi 5 argv p) (λ _ p'.
          over
            (heartbeat pipe.send k junk p' c)
            (λ _ c'. accept_report pipe.recv k junk' ip c' nm)))
unfolding start_datanode heartbeat accept_report
accept_report-heartbeat pipe k junk junk' atoi argv ip p nm c fits some_id id port lt idle valid =
    let report : DatanodeStatus = record {
      datanode_id = atoi (argv 3);
      datanode_listen_port = atoi (argv 1);
    } in
    let roomy : ltb (length (argv 2)) 32 ≡ true = ground arith in
    let sent =
      receive_data-send_data pipe k status_size (status_bytes report junk) junk' c lt idle in
    rw
      (
        roomy,
        sym (
            over-and_then (send_data pipe.send k true (status_bytes report junk) status_size c)
              (λ _ c'. receive_data pipe.recv k true junk' status_size c')
              (λ b _. register_datanode (status_of b) ip nm)),
      )
      (over-Returns sent (λ b _ (same, _).
        let e = status_of-same report junk b (omega arith) port same in
        rw e (
          mono (register_datanode-records report ip nm valid some_id)
            (λ _ nm' (valid', own, _, others). ((own id).0, (own id).1, valid', others)))))
