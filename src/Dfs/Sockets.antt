-- ===== src/Dfs/Sockets.antt =====
-- common/dfs_common.c: `send_data` and `receive_data`, which loop until a whole buffer has passed. The
-- calls `send` and `recv` of the operating system are parameters, over a state of the connection.
pub mod Pipe
pub mod Tests
use class_projects.Base.{ℕ, zero, suc, ◌+◌, ◌-◌, Bool, true, false, ltb, if◌then◌else◌}
use class_projects.Base.Int.{ℤ, pos, negsuc}
use class_projects.Base.Bytes.{Bytes, copy}
use class_projects.Base.Run.{Run, Cmd, done, fault, no_fuel}

-- `count += result`, where the result of the call may be negative: a count below 0 takes the pointer in
-- front of the buffer.
abbrev pub advance : {S A : Type 0} → ℕ → ℤ → (ℕ → Run S A) → Run S A
advance count (pos n) next = next (count + n)
advance count (negsuc n) next = if ltb n count then next (count - (n + 1)) else fault

-- `send(socket, data + p, n, 0)`: the result.
module _ {S : Type 0} (send : Bytes → ℕ → ℕ → S → ℤ × S) where
  unfoldable pub send_loop : ℕ → Bytes → ℕ → ℕ → Cmd S (Unit {0})
  send_loop zero src size bytes_sent s = no_fuel
  send_loop (suc k) src size bytes_sent s =
      let r = send src bytes_sent (size - bytes_sent) s in
      let rest = advance bytes_sent r.0 (λ n. send_loop k src size n r.1) in
      if ltb bytes_sent size then rest else done tt s

  -- `send_data`, on a socket that is valid or INVALID_SOCKET. `k` bounds the calls of `send`.
  unfoldable pub send_data : ℕ → Bool → Bytes → ℕ → Cmd S (Unit {0})
  send_data k valid src size s = if valid then send_loop k src size 0 s else done tt s

-- `recv(socket, data + p, n, 0)`: the result and the bytes that it stores.
module _ {S : Type 0} (recv : ℕ → S → (ℤ × Bytes) × S) where
  abbrev pub stored : ℤ → ℕ → Bytes → Bytes → Bytes
  stored (pos n) p got buf = copy n buf p got 0
  stored (negsuc n) p got buf = buf

  unfoldable pub receive_loop : ℕ → Bytes → ℕ → ℕ → Cmd S Bytes
  receive_loop zero buf size bytes_received s = no_fuel
  receive_loop (suc k) buf size bytes_received s =
      let r = recv (size - bytes_received) s in
      let buf' = stored r.0.0 bytes_received r.0.1 buf in
      let rest = advance bytes_received r.0.0 (λ n. receive_loop k buf' size n r.1) in
      if ltb bytes_received size then rest else done buf s

  -- `receive_data`: the buffer afterwards. `k` bounds the calls of `recv`.
  unfoldable pub receive_data : ℕ → Bool → Bytes → ℕ → Cmd S Bytes
  receive_data k valid buf size s = if valid then receive_loop k buf size 0 s else done buf s
