-- ===== src/Net/SocketLaws.antt =====
-- How a socket closes, and what `write` and `read` report.
use qing.Common.{ℕ, ◌≡◌, ◌≢◌, ◌↔◌, ◌⊎◌, true, false, some, List, [], arith}
use qing.Net.Socket.{wsa_send, TcpSocket, valid, does, sending, close, WsaResult, write}

close-valid : (s : TcpSocket) → valid (close s) ≡ false
unfolding close valid
close-valid s = ground arith

-- Closing leaves an invalid socket, and closing it again changes nothing, its log of calls included.
pub close_idem : (s : TcpSocket) → (valid (close s) ≡ false) × (close (close s) ≡ close s)
unfolding close valid
close_idem s = (close-valid s, ground arith)

-- `write` never returns true: it returns false exactly for an invalid socket or no bytes, and
-- otherwise calls WSASend with all the bytes, and then closes the socket or does nothing else.
write_lem :
    (bytes : List ℕ) (result : WsaResult) (s : TcpSocket)
    → let (r, s') = write bytes result s in
      (r ≢ some true)
      × ((r ≡ some false) ↔ ((valid s ≡ false) ⊎ (bytes ≡ [])))
      × ((r ≡ some false)
          ⊎ ((s' ≡ does (wsa_send bytes) (sending bytes s))
              ⊎ (s' ≡ close (does (wsa_send bytes) (sending bytes s)))))
unfolding write valid
write_lem bytes result s =
    ((λ p. ground arith), ((λ p. ground arith), (λ p. ground arith)), ground arith)
