-- ===== src/Tls/Wait.antt =====
-- The two loops of https_request that wait for the server.
use rfid_encryption.Base.{
  ℕ, zero, suc, List, Bool, true, false, take, Exec, done, running, pos, negsuc, strstr,
  if◌then◌else◌,
}
use rfid_encryption.Device.{
  Device, Env, Read, log, conn_read, conn_write, task_create_blink, task_delay, blue,
}
use rfid_encryption.Tls.Message.{heartbeat_request}

-- What the buffer holds when it is searched: it was zeroed, the bytes were put in front, and a
-- positive `ret` ends them with a NUL. The buffer of 512 bytes is read up to 511.
abbrev pub text_of : Read → List ℕ
text_of r = elim (r.ret) [
  | pos n ↦ elim n [ zero ↦ r.bytes | suc m ↦ take (suc m) r.bytes ]
  | negsuc n ↦ r.bytes
]

-- `ret <= 0`
abbrev pub ended : Read → Bool
ended r = elim (r.ret) [ pos n ↦ elim n [ zero ↦ true | suc m ↦ false ] | negsuc n ↦ true ]

module _ (env : Env) where
  -- The first loop: it reads until the peer ends or a buffer holds "200 OK". The buffer it leaves.
  unfoldable pub await_ok : ℕ → Device → Exec (List ℕ × Device)
  await_ok zero d = running
  await_ok (suc fuel) d =
      let r : Read = env.conn_reads d.history 511 in
      let d' : Device = log (conn_read r) d in
      let again = await_ok fuel d' in
      if ended r
      then done (text_of r, d')
      else if strstr (text_of r) "200 OK"
      then done (text_of r, d')
      else again

  -- The last loop: a heartbeat, whose sending is not checked, and its answer. `system_pass`.
  unfoldable pub await_login : ℕ → Device → Exec (Bool × Device)
  await_login zero d = running
  await_login (suc fuel) d =
      let sent : Device = log (conn_write heartbeat_request) d in
      let r : Read = env.conn_reads sent.history 511 in
      let d' : Device = log (conn_read r) sent in
      let again = await_login fuel (log (task_delay 2500) (log (task_create_blink blue) d')) in
      if ended r
      then done (false, d')
      else if strstr (text_of r) "200 OK"
      then done (true, d')
      else if strstr (text_of r) "400 Bad"
      then done (false, d')
      else again
