-- ===== src/Net/Objects.antt =====
-- The objects of a server under the calls of its poller.
use mathlib.Core.Option
use mathlib.Core.Option.{some-injective}
use mathlib.Core.Path.{subst}
use qing.Common.{
  ℕ, ◌≡◌, refl, sym, ap, ◌∙◌, ◌⊎◌, inl, inr, false, none, some, List, [], ◌∷◌, ◌==◌, ==_iff,
  ne_of_==_false, Bool-cases, Option-cases,
}
use qing.Common.OrdMap.{find, update, IsSorted, update-IsSorted, find-update_self, find-update_ne}
use qing.Net.Poller.{Action, on_read, on_write, EpollEvent}
use qing.Net.Socket
use qing.Net.Socket.{TcpSocket, Garbage, accepted_socket, valid, close}
use qing.Net.SocketLaws.{close_idem}
use qing.Net.SocketLife
use qing.Net.SocketLife.{Reach, accepted, on_read_closes}
use qing.Net.Server.{deliver, deliver_all}

abbrev pub Among : ℕ → List ℕ → Type 0
Among b [] = ⊥
Among b (x ∷ xs) = (b ≡ x) ⊎ Among b xs

-- The object `b` is there.
abbrev pub Stands : ℕ → List (ℕ × TcpSocket) → Type 0
Stands b m = (s : TcpSocket) × (find b m ≡ some s)

-- Every event names a pointer that was handed to epoll_ctl, as epoll documents of its events.
abbrev pub AllAmong : List ℕ → List EpollEvent → Type 0
AllAmong watched [] = Unit {0}
AllAmong watched (ev ∷ evs) = ((b : ℕ) × (ev.ptr ≡ some b) × Among b watched) × AllAmong watched evs

abbrev pub target : Action → ℕ
target (on_read b) = b
target (on_write b) = b

-- The object `b` is there, and has no descriptor.
abbrev pub Closed : ℕ → List (ℕ × TcpSocket) → Type 0
Closed b m = (s : TcpSocket) × (find b m ≡ some s) × (valid s ≡ false)

-- Every object that was called to read has been closed.
abbrev pub AllClosed : List Action → List (ℕ × TcpSocket) → Type 0
AllClosed [] m = Unit {0}
AllClosed (on_read b ∷ actions) m = Closed b m × AllClosed actions m
AllClosed (on_write b ∷ actions) m = AllClosed actions m

-- How one object comes through: a closed one stays closed.
pub record Comes (s s' : TcpSocket) : Type 0 where
  pub lives : Reach s → Reach s'
  pub stays_closed : valid s ≡ false → valid s' ≡ false

Comes-refl : (s : TcpSocket) → Comes s s
Comes-refl s = record { lives = λ r. r; stays_closed = λ c. c }

-- How the objects come through.
pub record Kept (m m' : List (ℕ × TcpSocket)) : Type 0 where
  pub sorted : IsSorted 0 m → IsSorted 0 m'
  pub absent : (k : ℕ) → find k m ≡ none → find k m' ≡ none
  pub comes :
      (k : ℕ) (s : TcpSocket)
      → find k m ≡ some s
      → (s' : TcpSocket) × (find k m' ≡ some s') × Comes s s'

Kept-refl : (m : List (ℕ × TcpSocket)) → Kept m m
Kept-refl m = record { sorted = λ s. s; absent = λ k e. e; comes = λ k s e. (s, e, Comes-refl s) }

Comes-on_read : (s : TcpSocket) → Reach s → Comes s (Socket.on_read s)
Comes-on_read s r = record {
  lives = λ _. SocketLife.next r (SocketLife.reads_on refl);
  stays_closed = λ c. ap valid (on_read_closes r).0 ∙ (close_idem s).0;
}

Comes-on_write : (s : TcpSocket) → Comes s (Socket.on_write s)
unfolding Socket.on_write
Comes-on_write s = Comes-refl s

pub Kept-update :
    (b : ℕ) (f : TcpSocket → TcpSocket) (m : List (ℕ × TcpSocket))
    → ((s : TcpSocket) → find b m ≡ some s → Comes s (f s))
    → Kept m (update b f m)
Kept-update b f m h = record {
  sorted = update-IsSorted 0 b f m;
  absent = λ k e. elim (Bool-cases (k == b)) [
    | inl same ↦
        let q = (==_iff k b).0 same in rw q (find-update_self b f m ∙ ap (Option.map f) (rw q at e))
    | inr other ↦ find-update_ne k b f m (ne_of_==_false k b other) ∙ e
  ];
  comes = λ k s e. elim (Bool-cases (k == b)) [
    | inl same ↦
        let q = (==_iff k b).0 same in
        let e' = rw q at e in (f s, rw q (find-update_self b f m ∙ ap (Option.map f) e'), h s e')
    | inr other ↦ (s, find-update_ne k b f m (ne_of_==_false k b other) ∙ e, Comes-refl s)
  ];
}

-- The objects are sockets that were made and used as sockets are.
pub record Sound (m : List (ℕ × TcpSocket)) : Type 0 where
  pub sorted : IsSorted 0 m
  pub lives : (k : ℕ) (s : TcpSocket) → find k m ≡ some s → Reach s

pub Kept-Sound : {m m' : List (ℕ × TcpSocket)} → Kept m m' → Sound m → Sound m'
Kept-Sound {m} {m'} c v = record {
  sorted = c.sorted v.sorted;
  lives = λ k s' e'. elim (Option-cases (find k m)) [
    | inl e ↦ cc (c.absent k e)
    | inr (s, e) ↦
        let (s2, e2, x) = c.comes k s e in
        let same : s2 ≡ s' = some-injective s2 s' (sym e2 ∙ e') in
        subst Reach same (x.lives (v.lives k s e))
  ];
}

pub Kept-Stands : {m m' : List (ℕ × TcpSocket)} (b : ℕ) → Kept m m' → Stands b m → Stands b m'
Kept-Stands b c (s, e) = let (s', e', _) = c.comes b s e in (s', e')

Kept-trans : (m m' m'' : List (ℕ × TcpSocket)) → Kept m m' → Kept m' m'' → Kept m m''
Kept-trans m m' m'' c d = record {
  sorted = λ s. d.sorted (c.sorted s);
  absent = λ k e. d.absent k (c.absent k e);
  comes = λ k s e.
      let (s1, e1, x) = c.comes k s e in
      let (s2, e2, y) = d.comes k s1 e1 in
      (
        s2,
        e2,
        record {
          lives = λ r. y.lives (x.lives r);
          stays_closed = λ z. y.stays_closed (x.stays_closed z);
        },
      );
}

Closed-Kept : {m m' : List (ℕ × TcpSocket)} (b : ℕ) → Kept m m' → Closed b m → Closed b m'
Closed-Kept b c (s, e, z) = let (s', e', x) = c.comes b s e in (s', e', x.stays_closed z)

-- A call finds its object, and `on_read` closes it.
deliver-Kept :
    (a : Action) (m : List (ℕ × TcpSocket))
    → Sound m
    → Stands (target a) m
    → (m' : List (ℕ × TcpSocket)) × (deliver a m ≡ some m') × Kept m m' × AllClosed (a ∷ []) m'
unfolding deliver
deliver-Kept (on_read b) m v (s, e) =
    let e' : find b m ≡ some s = e in
    let closing = (on_read_closes (v.lives b s e')).0 in
    (
      update b Socket.on_read m,
      rw (deliver, e'),
      Kept-update b Socket.on_read m (λ s e. Comes-on_read s (v.lives b s e)),
      (
        (
          Socket.on_read s,
          find-update_self b Socket.on_read m ∙ ap (Option.map Socket.on_read) e',
          ap valid closing ∙ (close_idem s).0,
        ),
        tt,
      ),
    )
deliver-Kept (on_write b) m v (s, e) =
    let e' : find b m ≡ some s = e in
    (
      update b Socket.on_write m,
      rw (deliver, e'),
      Kept-update b Socket.on_write m (λ s e. Comes-on_write s),
      tt,
    )

-- The calls find their objects, whatever came before.
abbrev pub AllStand : List Action → List (ℕ × TcpSocket) → Type 0
AllStand [] m = Unit {0}
AllStand (a ∷ actions) m = Stands (target a) m × AllStand actions m

AllStand-Kept :
    (actions : List Action) (m m' : List (ℕ × TcpSocket))
    → Kept m m'
    → AllStand actions m
    → AllStand actions m'
AllStand-Kept [] m m' c x = tt
AllStand-Kept (a ∷ actions) m m' c x =
    (Kept-Stands (target a) c x.0, AllStand-Kept actions m m' c x.1)

AllClosed-after :
    (a : Action) (actions : List Action) (m m' : List (ℕ × TcpSocket))
    → Kept m m'
    → AllClosed (a ∷ []) m
    → AllClosed actions m'
    → AllClosed (a ∷ actions) m'
AllClosed-after (on_read b) actions m m' c x y = (Closed-Kept b c x.0, y)
AllClosed-after (on_write b) actions m m' c x y = y

pub deliver_all-Kept :
    (actions : List Action) (m : List (ℕ × TcpSocket))
    → Sound m
    → AllStand actions m
    → (m' : List (ℕ × TcpSocket)) × (deliver_all actions m ≡ some m')
      × Kept m m'
      × AllClosed actions m'
unfolding deliver_all
deliver_all-Kept [] m v x = (m, refl, Kept-refl m, tt)
deliver_all-Kept (a ∷ actions) m v x =
    let (m1, p1, c1, z1) = deliver-Kept a m v x.0 in
    let (m2, p2, c2, z2) =
      deliver_all-Kept actions m1 (Kept-Sound c1 v) (AllStand-Kept actions m m1 c1 x.1) in
    (m2, rw (p1, p2), Kept-trans m m1 m2 c1 c2, AllClosed-after a actions m1 m2 c2 z1 z2)
