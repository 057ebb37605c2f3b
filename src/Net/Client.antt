-- ===== src/Net/Client.antt =====
-- `TcpClient::connect` and `_connect`, src/net/tcp_client.cpp: up to ten attempts at one socket.
use qing.Common.{
  ℕ, zero, suc, ◌-◌, Bool, true, false, Option, none, some, List, [], ◌∷◌, ◌>>=◌, leb, ltb,
  if◌then◌else◌, ℤ,
}

-- `CONNECT_STATUS`.
pub data ConnectStatus : Type 0 where
  client_unconnected client_connecting client_connected : ConnectStatus

-- What `sock_connect` reads and writes of the socket's instance. `attempts` counts the calls of
-- `::connect`.
pub record Connection : Type 0 where
  pub socket : ℕ
  pub conn_status : ConnectStatus
  pub nonblocking : Bool
  pub attempts : ℕ

abbrev pub is_unconnected : ConnectStatus → Bool
is_unconnected client_unconnected = true
is_unconnected _ = false

abbrev pub is_connecting : ConnectStatus → Bool
is_connecting client_connecting = true
is_connecting _ = false

-- `refuses n`: the call of `::connect` after `n` others gives SOCKET_ERROR.
module _ (refuses : ℕ → Bool) where
  -- `sock_connect`, the same in both overloads but for the address.
  unfoldable pub sock_connect : Connection → ConnectStatus × Connection
  sock_connect c =
      let tried : Connection = record c { attempts = suc c.attempts } in
      let c' : Connection =
        if refuses c.attempts
        then (if is_unconnected c.conn_status
            then tried
            else record tried { conn_status = client_unconnected })
        else record tried { nonblocking = true; conn_status = client_connected } in
      (c'.conn_status, c')

  -- The loop, on fuel, with `status` and `test_times`.
  unfoldable pub connect_loop :
      ℕ → ConnectStatus → ℕ → Connection → Option (ConnectStatus × ℕ × Connection)
  connect_loop zero status test_times c = none
  connect_loop (suc fuel) status test_times c =
      let (status', c') = sock_connect c in
      let again =
        (if is_unconnected status'
          then connect_loop fuel client_connecting (test_times - 1) c'
          else connect_loop fuel status' test_times c') in
      if is_connecting status
      then (if ltb 0 test_times then again else some (status, test_times, c))
      else some (status, test_times, c)

  -- `connect`, from the fresh socket on: the result, the connection, and the calls of `onConnect`.
  unfoldable pub connect : ℕ → ℤ → Option (Bool × Connection × List (ℕ × ℤ))
  connect sock_id server_type =
      let c : Connection = record {
        socket = sock_id;
        conn_status = client_connecting;
        nonblocking = false;
        attempts = 0;
      } in
      connect_loop 11 client_connecting 10 c >>= λ r.
      some (if leb r.1 0 then (false, r.2, []) else (true, r.2, (r.2.socket, server_type) ∷ []))
