-- ===== src/Net/Listening.antt =====
-- What `listen` and `onRead` of a listener report and leave.
use mathlib.Core.Option
use qing.Common.{◌≡◌, ◌↔◌, ◌≢◌, true, false, none, some, ◌∷◌, arith, if◌then◌else◌}
use qing.Net.Util.{SocketCalls}
use qing.Net.Listener.{TcpListener, ListenCalls, listen_epoll, listen_kqueue}

-- On epoll `listen` of a listener that does not listen yet returns true exactly when the three
-- calls succeed; then, and only then, the listener listens and its socket is registered.
listen_epoll_iff :
    (new_calls : SocketCalls) (calls : ListenCalls) (l : TcpListener)
    → l.listening ≡ false
    → let (r, l') = listen_epoll new_calls calls l in
      ((r ≡ true) ↔ ((calls.option_ok ≡ true) × (calls.bind_ok ≡ true) × (calls.listen_ok ≡ true)))
      × (r ≡ l'.listening)
      × (l'.registered ≡ (if r then l'.socket ∷ l.registered else l.registered))
unfolding listen_epoll
listen_epoll_iff new_calls calls l h =
    (((λ p. ground arith), (λ p. ground arith)), ground arith, ground arith)

-- On kqueue `listen` of a listener that does not listen yet never returns true, and returns
-- nothing at all exactly when the listener then listens.
listen_kqueue_lem :
    (new_calls : SocketCalls) (calls : ListenCalls) (l : TcpListener)
    → l.listening ≡ false
    → let (r, l') = listen_kqueue new_calls calls l in
      (r ≢ some true) × ((r ≡ none) ↔ (l'.listening ≡ true))
unfolding listen_kqueue
listen_kqueue_lem new_calls calls l h =
    ((λ p. ground arith), ((λ p. ground arith), (λ p. ground arith)))
