-- ===== src/Dfs/Sockets/Tests.antt =====
-- Runs of `send_data` and `receive_data` of common/dfs_common.c, over a line that passes at most two
-- bytes with each call, and at the end of a connection that was closed, and of a heartbeat.
use class_projects.Base.{
  ℕ, suc, ◌+◌, ◌-◌, ◌*◌, ◌<◌, ◌≡◌, ◌≢◌, refl, arith, true, false, some, min, [], ◌∷◌, ◌==◌,
  if◌then◌else◌,
}
use class_projects.Base.Names.{Name}
use class_projects.Dfs.Namenode.{start}
use class_projects.Dfs.Namenode.Nodes.{NodesIsValid, start-NodesIsValid}
use class_projects.Dfs.Heartbeat.{
  Process, over, start_datanode, heartbeat, accept_report, accept_report-heartbeat,
}
use class_projects.Base.Int.{ℤ, pos}
use class_projects.Base.Bytes.{Bytes, File, SameBytes, empty_file, file_write}
use class_projects.Base.Run.{no_fuel, and_then, Returns}
use class_projects.Dfs.Sockets.{send_data, receive_data}
use class_projects.Dfs.Sockets.Pipe.{Pipe, receive_data-send_data, receive_data_closed}

record Line : Type 0 where
  content : File
  taken : ℕ

abbrev line_send : Bytes → ℕ → ℕ → Line → ℤ × Line
line_send src p n s =
    (pos (min n 2), record s { content = file_write s.content s.content.size (min n 2) src p })

abbrev line_recv : ℕ → Line → (ℤ × Bytes) × Line
line_recv n s =
    let k = min (min n 2) (s.content.size - s.taken) in
    ((pos k, λ i. s.content.byte (s.taken + i)), record s { taken = s.taken + k })

before :
    (src : Bytes) (p n : ℕ) (s : Line) (i : ℕ)
    → i < s.content.size
    → (line_send src p n s).1.content.byte i ≡ s.content.byte i
before src p n s i lt = ground arith

added :
    (src : Bytes) (p n : ℕ) (s : Line) (i : ℕ)
    → i < min n 2
    → (line_send src p n s).1.content.byte (s.content.size + i) ≡ src (p + i)
added src p n s i lt =
    let z : s.content.size + i - s.content.size + p ≡ p + i = omega arith in ground arith

abbrev line : Pipe
line = record {
  State = Line;
  content = λ s. s.content;
  taken = λ s. s.taken;
  send = line_send;
  recv = line_recv;
  send_some = λ src p n s h. (
    min n 2,
    (line_send src p n s).1,
    refl,
    omega arith,
    omega arith,
    refl,
    omega arith,
    (λ i lt. before src p n s i lt),
    (λ i lt. added src p n s i lt),
  );
  recv_some = λ n s h there. (
    min (min n 2) (s.content.size - s.taken),
    (λ i. s.content.byte (s.taken + i)),
    (line_recv n s).1,
    refl,
    omega arith,
    omega arith,
    omega arith,
    refl,
    refl,
    (λ i lt. refl),
  );
}

abbrev counting : Bytes
counting i = i * 3 + 1

abbrev zeros : Bytes
zeros = λ _. 0

abbrev idle : Line
idle = record { content = empty_file; taken = 0 }

receive_data-send_data_example :
    Returns
      (λ buf' s'. SameBytes 5 buf' counting × (s'.taken ≡ s'.content.size))
      (and_then
        (send_data line_send 6 true counting 5 idle)
        (λ _ s1. receive_data line_recv 6 true zeros 5 s1))
receive_data-send_data_example =
    receive_data-send_data line 6 5 counting zeros idle (omega arith) refl

receive_data_closed_example :
    receive_data (λ n s. ((pos 0, zeros), s)) 100 true zeros 4 idle ≡ no_fuel
receive_data_closed_example =
    receive_data_closed (λ n s. ((pos 0, zeros), s)) 100 4 zeros idle (λ n. (zeros, refl))
      (omega arith)

-- The arguments of a datanode: the port, the address of the namenode, the id and the directory.
abbrev arguments : ℕ → Name
arguments i = if i == 1 then b'7' ∷ [] else if i == 3 then b'4' ∷ [] else b'h' ∷ []

abbrev digit : Name → ℕ
digit [] = 0
digit (c ∷ cs) = c - 48

abbrev stopped : Process
stopped = record { datanode_id = 0; datanode_listen_port = 0; working_directory = [] }

accept_report-heartbeat_example :
    Returns
      (λ _ nm'.
        (nm'.dnlist 3 ≡ some (record { dn_id = 4; ip = b'h' ∷ []; port = 7 }))
        × (nm'.safe_mode ≡ false)
        × NodesIsValid nm'
        × ((j : ℕ) → suc j ≢ 4 → nm'.dnlist j ≡ start.dnlist j))
      (over (start_datanode digit 5 arguments stopped) (λ _ p.
        over
          (heartbeat line_send 9 zeros p idle)
          (λ _ c. accept_report line_recv 9 zeros (b'h' ∷ []) c start)))
accept_report-heartbeat_example =
    accept_report-heartbeat line 9 zeros zeros digit arguments (b'h' ∷ []) stopped start idle
      (omega arith) (omega arith) (omega arith) (omega arith) (omega arith) refl start-NodesIsValid
