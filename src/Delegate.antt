-- ===== src/Delegate.antt =====
-- DefaultNetDelegate of tcp/netdelegate.go, with the fields of TcpClient (tcp/tcpclient.go) that it
-- uses: reading one message off a connection, writing one to it, and dispatching it to a handler.
-- A connection is the bytes that will have arrived before its deadline, and those written to it;
-- whether a deadline can be set, and whether a write succeeds, are parameters.
use mathlib.Core.Option
use cc_be_chat_test.Common.{
  ℕ, ◌+◌, ◌-◌, ◌*◌, ◌^◌, bit_or, Bool, true, false, not, ◌&&◌, ◌||◌, Option, none, some, List, [],
  ◌∷◌, ◌++◌, u8, u32, length, take, drop, set, get_elem?, get_or, replicate, min, ltb, ◌==◌,
  if◌then◌else◌, Outcome, ok, err, panic, ◌>>=◌, or_panic,
}
use cc_be_chat_test.NetMsg.{NetMsg, Coder, default_pack_head_len}
use cc_be_chat_test.NetMsg
pub mod Framing
pub mod Dispatch
pub mod Crossing
pub mod Exchange
pub mod Settings

abbrev pub default_max_pack_len : ℕ
default_max_pack_len = 1024 * 1024

-- A client: its coder's state, the bytes in flight to it, and those it has written.
pub record TcpClient (S : Type 0) : Type 0 where
  pub coder : S
  pub incoming : List ℕ
  pub outgoing : List ℕ
  pub real_ip : Option (List ℕ)
  pub read_len : ℕ
  pub write_len : ℕ

-- The errors of a delegate's calls; `coder_error` is the coder's.
pub data DelegateError (E : Type 0) : Type 0 where
  coder_error : E → DelegateError E
  no_deadline : DelegateError E
  short_read : DelegateError E
  bad_version : ℕ → DelegateError E
  too_long : ℕ → DelegateError E
  too_short : ℕ → DelegateError E
  write_failed : DelegateError E
  no_data : DelegateError E

module _ {S : Type 0} where
  -- `io.ReadFull(conn, buf)` for a buffer of `n` bytes: the bytes read, all that is left if they
  -- are too few.
  unfoldable pub read_full : ℕ → TcpClient S → List ℕ × TcpClient S
  read_full n client = (take n client.incoming, record client { incoming = drop n client.incoming })

  unfoldable pub add_read_len : ℕ → TcpClient S → TcpClient S
  add_read_len n client = record client { read_len = client.read_len + n }

  unfoldable pub add_write_len : ℕ → TcpClient S → TcpClient S
  add_write_len n client = record client { write_len = client.write_len + n }

  unfoldable pub set_coder : S → TcpClient S → TcpClient S
  set_coder s client = record client { coder = s }

  unfoldable pub set_real_ip : List ℕ → TcpClient S → TcpClient S
  set_real_ip ip client = record client { real_ip = some ip }

module _ {E S : Type 0} (coder : Option (Coder E S)) (max_pack_len : ℕ) where
  -- The end of RecvMsg: what the coder makes of the packet.
  unfoldable pub recv_decrypted :
      TcpClient S → S × Outcome E NetMsg → TcpClient S × Outcome (DelegateError E) NetMsg
  recv_decrypted client (s, ok msg) = (record client { coder = s }, ok msg)
  recv_decrypted client (s, err e) = (record client { coder = s }, err (coder_error e))
  recv_decrypted client (s, panic) = (record client { coder = s }, panic)

  unfoldable pub recv_decrypt :
      List ℕ → TcpClient S → TcpClient S × Outcome (DelegateError E) NetMsg
  recv_decrypt buf client =
      recv_decrypted client (NetMsg.decrypt coder client.coder (record { buf = buf }))

  -- The middle of RecvMsg: the head says how long the body is.
  unfoldable pub recv_body :
      Bool → ℕ → List ℕ → TcpClient S → TcpClient S × Outcome (DelegateError E) NetMsg
  recv_body deadline pack_len head client =
      if ltb default_pack_head_len pack_len
      then (if not deadline
          then (client, err no_deadline)
          else if ltb max_pack_len pack_len
          then (client, err (too_long pack_len))
          else let need = pack_len - default_pack_head_len in
            let (body, read) = read_full need client in
            let counted = add_read_len (length body) read in
            if ltb (length body) need
            then (counted, err short_read)
            else recv_decrypt (head ++ body) counted)
      else recv_decrypt head client

  -- The second part of the head: four more bytes, or eight when a proxy (0x99) puts the user's
  -- address before them; the address is then cut out of the head.
  unfoldable pub recv_head :
      Bool → List ℕ → TcpClient S → TcpClient S × Outcome (DelegateError E) NetMsg
  recv_head deadline info client =
      let proxied = get_or info 0 0 == 0x99 in
      let need = if proxied then 8 else 4 in
      let (rest, read) = read_full need client in
      if ltb (length rest) need
      then (read, err short_read)
      else elim (NetMsg.pack_len {E = E} (record { buf = info ++ rest })) [
        | ok pack_len ↦
            if proxied
            then recv_body deadline pack_len (set (info ++ drop 4 rest) 0 137)
                (set_real_ip (take 4 rest) read)
            else recv_body deadline pack_len (info ++ rest) read
        | err e ↦ (read, err (coder_error e))
        | panic ↦ (read, panic)
      ]

  -- RecvMsg; its `nil` is the errors here. The two flags say whether the deadlines before the head
  -- and before the body can be set.
  unfoldable pub recv_msg :
      Bool → Bool → TcpClient S → TcpClient S × Outcome (DelegateError E) NetMsg
  recv_msg head_deadline body_deadline client =
      if not head_deadline
      then (client, err no_deadline)
      else let (info, read) = read_full 4 client in
        let counted = add_read_len (length info) read in
        if ltb (length info) 4 then (counted, err short_read) else elim (get_elem? info 0) [
          | none ↦ (counted, panic)
          | some b ↦
              if not (b == 0x89) && not (b == 0x99)
              then (counted, err (bad_version b))
              else recv_head body_deadline info counted
        ]

  -- SendMsg, once the message is encrypted.
  unfoldable pub send_encrypted :
      Bool
      → (List ℕ → ℕ × Bool)
      → TcpClient S
      → S × Outcome E (List ℕ)
      → TcpClient S × Outcome (DelegateError E) (Unit {0})
  send_encrypted deadline write client (s, err e) =
      (record client { coder = s }, err (coder_error e))
  send_encrypted deadline write client (s, panic) = (record client { coder = s }, panic)
  send_encrypted deadline write client (s, ok buf) =
      let client' = record client { coder = s } in
      if ltb max_pack_len (length buf)
      then (client', err (too_long (length buf)))
      else if ltb (length buf) default_pack_head_len
      then (client', err (too_short (length buf)))
      else if not deadline
      then (client', err no_deadline)
      else let (n, success) = write buf in
        let written = record client' { outgoing = client.outgoing ++ take n buf } in
        (add_write_len n written, if success then ok tt else err write_failed)

  -- SendMsg. `write` is the connection's Write: how many bytes it takes, and whether it succeeds.
  unfoldable pub send_msg :
      Bool
      → (List ℕ → ℕ × Bool)
      → NetMsg
      → TcpClient S
      → TcpClient S × Outcome (DelegateError E) (Unit {0})
  send_msg deadline write msg client =
      send_encrypted deadline write client (NetMsg.encrypt coder client.coder msg)

  -- SendData: the bytes go out as they are, and are not counted.
  unfoldable pub send_data :
      Bool
      → (List ℕ → ℕ × Bool)
      → List ℕ
      → TcpClient S
      → TcpClient S × Outcome (DelegateError E) (Unit {0})
  send_data deadline write bytes client =
      if length bytes == 0
      then (client, err no_data)
      else if ltb max_pack_len (length bytes)
      then (client, err (too_long (length bytes)))
      else if not deadline
      then (client, err no_deadline)
      else let (n, success) = write bytes in
        let written = record client { outgoing = client.outgoing ++ take n bytes } in
        (written, if (n == length bytes) && success then ok tt else err write_failed)
