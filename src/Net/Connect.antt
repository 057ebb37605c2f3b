-- ===== src/Net/Connect.antt =====
-- What `connect` does, by the first attempt that is not refused.
use qing.Common.{
  ℕ, zero, suc, ◌+◌, ◌-◌, ◌<◌, ◌≡◌, refl, ◌∙◌, Bool, true, false, some, [], ◌∷◌, arith, leb, lt→ltb,
  ℤ, ltb, ltb→lt, Bool-cases, inl, inr, if◌then◌else◌, ◌≤◌,
}
use qing.Net.Client.{
  client_unconnected, client_connecting, client_connected, Connection, sock_connect, connect_loop,
  connect,
}

module _ (refuses : ℕ → Bool) where
  abbrev refused : Connection → Connection
  refused c = record c { attempts = suc c.attempts; conn_status = client_unconnected }

  abbrev accepted : Connection → Connection
  accepted c = record c {
    attempts = suc c.attempts;
    nonblocking = true;
    conn_status = client_connected;
  }

  sock_connect-refused :
      (c : Connection)
      → refuses c.attempts ≡ true
      → sock_connect refuses c ≡ (client_unconnected, refused c)
  unfolding sock_connect
  sock_connect-refused c r = ground arith

  sock_connect-accepted :
      (c : Connection)
      → refuses c.attempts ≡ false
      → sock_connect refuses c ≡ (client_connected, accepted c)
  unfolding sock_connect
  sock_connect-accepted c r = ground arith

  round_refused :
      (fuel t : ℕ) (c : Connection)
      → refuses c.attempts ≡ true
      → connect_loop refuses (suc fuel) client_connecting (suc t) c
        ≡ connect_loop refuses fuel client_connecting t (refused c)
  unfolding connect_loop
  round_refused fuel t c r =
      let less : suc t - 1 ≡ t = omega arith in
      rw (sock_connect-refused c r, less, lt→ltb 0 (suc t) (omega arith))

  round_accepted :
      (fuel t : ℕ) (c : Connection)
      → refuses c.attempts ≡ false
      → connect_loop refuses (suc (suc fuel)) client_connecting (suc t) c
        ≡ some (client_connected, suc t, accepted c)
  unfolding connect_loop
  round_accepted fuel t c r = rw (sock_connect-accepted c r, lt→ltb 0 (suc t) (omega arith))

  -- The connection after a number of refused rounds.
  abbrev pub after_refusals : ℕ → Connection → Connection
  after_refusals zero c = c
  after_refusals (suc n) c = after_refusals n (refused c)

  attempts-after_refusals :
      (n : ℕ) (c : Connection) → (after_refusals n c).attempts ≡ c.attempts + n
  attempts-after_refusals zero c = omega arith
  attempts-after_refusals (suc n) c = omega (arith, attempts-after_refusals n (refused c))

  later_refusals :
      (n : ℕ) (c : Connection)
      → ((i : ℕ) → i < suc n → refuses (c.attempts + i) ≡ true)
      → (refuses c.attempts ≡ true) × ((i : ℕ) → i < n → refuses (suc c.attempts + i) ≡ true)
  later_refusals n c all =
      let here : c.attempts + 0 ≡ c.attempts = omega arith in
      (
        rw here at (all 0 (omega arith)),
        λ i h.
            let there : c.attempts + suc i ≡ suc c.attempts + i = omega arith in
            rw there at (all (suc i) (omega arith)),
      )

  loop_refused :
      (t fuel : ℕ) (c : Connection)
      → t < fuel
      → ((i : ℕ) → i < t → refuses (c.attempts + i) ≡ true)
      → connect_loop refuses fuel client_connecting t c
        ≡ some (client_connecting, 0, after_refusals t c)
  unfolding connect_loop
  loop_refused t zero c h all = absurd (omega arith)
  loop_refused zero (suc fuel) c h all = refl
  loop_refused (suc t) (suc fuel) c h all =
      let (now, later) = later_refusals t c all in
      round_refused fuel t c now ∙ loop_refused t fuel (refused c) (omega arith) later

  loop_accepted :
      (n t fuel : ℕ) (c : Connection)
      → n < t
      → t < fuel
      → ((i : ℕ) → i < n → refuses (c.attempts + i) ≡ true)
      → refuses (c.attempts + n) ≡ false
      → connect_loop refuses fuel client_connecting t c
        ≡ some (client_connected, t - n, accepted (after_refusals n c))
  loop_accepted n t zero c h h' all r = absurd (omega arith)
  loop_accepted n zero (suc fuel) c h h' all r = absurd (omega arith)
  loop_accepted n (suc t) (suc zero) c h h' all r = absurd (omega arith)
  loop_accepted zero (suc t) (suc (suc fuel)) c h h' all r =
      let here : c.attempts + 0 ≡ c.attempts = omega arith in
      let whole : suc t - 0 ≡ suc t = omega arith in
      rw whole (round_accepted fuel t c (rw here at r))
  loop_accepted (suc n) (suc t) (suc (suc fuel)) c h h' all r =
      let (now, later) = later_refusals n c all in
      let there : c.attempts + suc n ≡ suc c.attempts + n = omega arith in
      let less : suc t - suc n ≡ t - n = omega arith in
      rw less (
        round_refused (suc fuel) t c now
        ∙ loop_accepted n t (suc fuel) (refused c) (omega arith) (omega arith) later
            (rw there at r))

  abbrev fresh : ℕ → Connection
  fresh sock_id = record {
    socket = sock_id;
    conn_status = client_connecting;
    nonblocking = false;
    attempts = 0;
  }

  socket-after_refusals : (n : ℕ) (c : Connection) → (after_refusals n c).socket ≡ c.socket
  socket-after_refusals zero c = refl
  socket-after_refusals (suc n) c = socket-after_refusals n (refused c)

  connect_refused :
      (sock_id : ℕ) (server_type : ℤ)
      → ((i : ℕ) → i < 10 → refuses i ≡ true)
      → connect refuses sock_id server_type
        ≡ some (
          false,
          record {
            socket = sock_id;
            conn_status = client_unconnected;
            nonblocking = false;
            attempts = 10;
          },
          [],
        )
  unfolding connect
  connect_refused sock_id server_type all = rw (
      loop_refused 10 11 (fresh sock_id) (omega arith)
        (λ i h. let e : 0 + i ≡ i = omega arith in rw e (all i h)))

  connect_accepted :
      (sock_id : ℕ) (server_type : ℤ) (n : ℕ)
      → n < 10
      → ((i : ℕ) → i < n → refuses i ≡ true)
      → refuses n ≡ false
      → connect refuses sock_id server_type
        ≡ some (
          true,
          record {
            socket = sock_id;
            conn_status = client_connected;
            nonblocking = true;
            attempts = suc n;
          },
          (sock_id, server_type) ∷ [],
        )
  unfolding connect
  connect_accepted sock_id server_type n h all r =
      let e : 0 + n ≡ n = omega arith in
      let left : leb (10 - n) 0 ≡ false = ground arith in
      rw
        (
          loop_accepted n 10 11 (fresh sock_id) h (omega arith)
              (λ i h. let e' : 0 + i ≡ i = omega arith in rw e' (all i h)) (rw e r),
          left,
        )
        (rw (socket-after_refusals n (fresh sock_id), attempts-after_refusals n (fresh sock_id), e))

  -- Let `n` be the first attempt that is not refused, or ten if the first ten all are. `connect`
  -- returns whether `n` is below ten. If it is, `connect` makes the attempts up to this one, leaves
  -- the socket connected and non-blocking, and calls `onConnect` once, with it; if not, it makes
  -- ten, leaves the socket unconnected and blocking, and does not call `onConnect`.
  pub connect_lem :
      (sock_id : ℕ) (server_type : ℤ) (n : ℕ)
      → n ≤ 10
      → ((i : ℕ) → i < n → refuses i ≡ true)
      → (n < 10 → refuses n ≡ false)
      → connect refuses sock_id server_type
        ≡ some (
          ltb n 10,
          record {
            socket = sock_id;
            conn_status = if ltb n 10 then client_connected else client_unconnected;
            nonblocking = ltb n 10;
            attempts = if ltb n 10 then suc n else 10;
          },
          if ltb n 10 then (sock_id, server_type) ∷ [] else [],
        )
  connect_lem sock_id server_type n h all r = elim (Bool-cases (ltb n 10)) [
    | inl lt ↦
        let below = ltb→lt n 10 lt in
        rw lt (connect_accepted sock_id server_type n below all (r below))
    | inr ge ↦ rw ge (connect_refused sock_id server_type (λ i lt. all i (ground arith)))
  ]
