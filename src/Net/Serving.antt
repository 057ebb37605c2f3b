-- ===== src/Net/Serving.antt =====
-- What a server's poll does to the sockets, in every order of accepting, polling and using them.
use mathlib.Core.Option.{some-injective}
use mathlib.Core.Path.{subst}
use qing.Common.{
  ℕ, suc, ◌≤◌, ◌≡◌, refl, sym, ◌∙◌, inl, inr, Bool, false, none, some, List, [], ◌∷◌, ◌==◌,
  if◌then◌else◌, Bool-cases, ==_iff, ℤ, pos, negsuc, arith,
}
use qing.Common.OrdMap.{find, insert, update, insert-IsSorted, find-insert}
use qing.Net.Poller.{Action}
use qing.Net.Socket.{TcpSocket, Garbage, accepted_socket}
use qing.Net.SocketLife
use qing.Net.Listener.{TcpListener}
use qing.Net.Server.{Server, accept_one, deliver_all}
use qing.Net.Targets.{AllTargets, AllTargets-AllStand}
use qing.Net.Objects.{
  Among, Stands, AllClosed, Sound, Kept, Kept-Sound, Kept-Stands, Kept-update, Comes,
  deliver_all-Kept,
}

-- One thing that happens to a server: its listener is told of a connection, its poller calls
-- objects whose pointers the system has, or the program uses a socket's object.
pub data Step (w w' : Server) : Type 0 where
  accepts : (given : ℤ) (added : Bool) (g : Garbage) → w' ≡ accept_one given added g w → Step w w'
  polls :
      (actions : List Action) (m : List (ℕ × TcpSocket))
      → AllTargets w.watched actions
      → deliver_all actions w.objects ≡ some m
      → w' ≡ record w { objects = m }
      → Step w w'
  uses :
      (b : ℕ) (s s' : TcpSocket)
      → find b w.objects ≡ some s
      → SocketLife.Step s s'
      → w' ≡ record w { objects = update b (λ _. s') w.objects }
      → Step w w'

pub data Reach : Server → Type 0 where
  starts :
      (l : TcpListener)
      → Reach (record { listener = l; objects = []; next_object = 0; watched = [] })
  next : {w w' : Server} → Reach w → Step w w' → Reach w'

-- Every pointer that epoll has names an object.
record IsValid (w : Server) : Type 0 where
  sound : Sound w.objects
  fresh : (k : ℕ) → w.next_object ≤ k → find k w.objects ≡ none
  watched : (b : ℕ) → Among b w.watched → Stands b w.objects

-- New contents of the objects, by calls and operations.
objects-IsValid :
    (w : Server) (m : List (ℕ × TcpSocket))
    → Kept w.objects m
    → IsValid w
    → IsValid (record w { objects = m })
objects-IsValid w m c v = record {
  sound = Kept-Sound c v.sound;
  fresh = λ k le. c.absent k (v.fresh k le);
  watched = λ b among. Kept-Stands b c (v.watched b among);
}

-- A poll's calls of watched pointers, and their objects.
delivers :
    (actions : List Action) (w : Server)
    → IsValid w
    → AllTargets w.watched actions
    → (m : List (ℕ × TcpSocket)) × (deliver_all actions w.objects ≡ some m)
      × Kept w.objects m
      × AllClosed actions m
delivers actions w v x =
    deliver_all-Kept actions w.objects v.sound
      (AllTargets-AllStand w.watched w.objects actions v.watched x)

Stands-insert :
    (b n : ℕ) (new : TcpSocket) (m : List (ℕ × TcpSocket))
    → Stands b m
    → find b (insert n new m) ≡ (if b == n then some new else find b m)
    → Stands b (insert n new m)
Stands-insert b n new m (s, e) q = elim (Bool-cases (b == n)) [
  | inl same ↦ (new, q ∙ rw same)
  | inr other ↦ (s, q ∙ rw other e)
]

-- A new object, under the next number.
new_object-IsValid :
    (s : ℕ) (added : Bool) (g : Garbage) (l : TcpListener) (w : Server)
    → IsValid w
    → IsValid (record w {
      listener = l;
      objects = insert w.next_object (accepted_socket (pos s) g) w.objects;
      next_object = suc w.next_object;
      watched = if added then w.next_object ∷ w.watched else w.watched;
    })
new_object-IsValid s added g l w v =
    let n = w.next_object in
    let new = accepted_socket (pos s) g in
    let found =
      λ (k : ℕ). find-insert 0 k n new w.objects v.sound.sorted (v.fresh n (omega arith)) in
    record {
      sound = record {
        sorted = insert-IsSorted 0 n new w.objects (omega arith) v.sound.sorted;
        lives = λ k t e. elim (Bool-cases (k == n)) [
          | inl same ↦
              let q = some-injective new t (sym (rw same at (found k)) ∙ e) in
              subst SocketLife.Reach q (SocketLife.accepted (pos s) g)
          | inr other ↦ v.sound.lives k t (sym (rw other at (found k)) ∙ e)
        ];
      };
      fresh = λ k le.
          let other : (k == n) ≡ false = ground arith in
          (rw other at (found k)) ∙ v.fresh k (omega arith);
      watched = λ b among.
          let old =
            λ (a : Among b w.watched). Stands-insert b n new w.objects (v.watched b a) (found b) in
          elim (Bool-cases added) [
            | inl yes_added ↦ elim (rw yes_added at among) [
              | inl q ↦ (new, rw ((==_iff b n).1 q) at (found b))
              | inr a ↦ old a
            ]
            | inr not_added ↦ old (rw not_added at among)
          ];
    }

listener-IsValid : (l : TcpListener) (w : Server) → IsValid w → IsValid (record w { listener = l })
listener-IsValid l w v = record { sound = v.sound; fresh = v.fresh; watched = v.watched }

accept_one-IsValid :
    (given : ℤ) (added : Bool) (g : Garbage) (w : Server)
    → IsValid w
    → IsValid (accept_one given added g w)
unfolding accept_one
accept_one-IsValid given added g w v = elim given as (λ x. IsValid (accept_one x added g w)) [
  | negsuc n ↦ listener-IsValid _ w v
  | pos s ↦ elim (Bool-cases (s == 0)) [
    | inl none_came ↦ rw (accept_one, none_came) (listener-IsValid _ w v)
    | inr came ↦ rw (accept_one, came) (new_object-IsValid s added g _ w v)
  ]
]

Step-IsValid : {w w' : Server} → Step w w' → IsValid w → IsValid w'
Step-IsValid {w} (accepts given added g q) v = rw q (accept_one-IsValid given added g w v)
Step-IsValid {w} (polls actions m x p q) v =
    let (m', p', c, _) = delivers actions w v x in
    let same = some-injective m' m (sym p' ∙ p) in
    rw q (objects-IsValid w m (subst (Kept w.objects) same c) v)
Step-IsValid {w} (uses b s s' e st q) v =
    let comes = λ (t : TcpSocket) (f : find b w.objects ≡ some t).
      let same : t ≡ s = some-injective t s (sym f ∙ e) in
      let c : Comes s s' = record {
        lives = λ r. SocketLife.next r st;
        stays_closed = SocketLife.Step-closed st;
      } in
      subst (λ x. Comes x s') (sym same) c in
    rw q
      (objects-IsValid w (update b (λ _. s') w.objects) (Kept-update b (λ _. s') w.objects comes) v)

Reach-IsValid : {w : Server} → Reach w → IsValid w
unfolding find
Reach-IsValid (starts l) = record {
  sound = record { sorted = tt; lives = λ k s e. cc };
  fresh = λ k le. refl;
  watched = λ b among. absurd among;
}
Reach-IsValid (next r st) = Step-IsValid st (Reach-IsValid r)

-- Its objects are sockets that were made and used as sockets are, and every pointer that the system
-- has names one.
pub Reach-Sound :
    {w : Server} → Reach w → Sound w.objects × ((b : ℕ) → Among b w.watched → Stands b w.objects)
Reach-Sound r = let v = Reach-IsValid r in (v.sound, v.watched)

-- A poll of watched pointers is a step, and closes what it calls to read.
pub poll-Reach :
    (actions : List Action) {w : Server}
    → Reach w
    → AllTargets w.watched actions
    → (m : List (ℕ × TcpSocket)) × (deliver_all actions w.objects ≡ some m)
      × Reach (record w { objects = m })
      × AllClosed actions m
poll-Reach actions {w} r x =
    let (m, p, _, z) = delivers actions w (Reach-IsValid r) x in
    (m, p, next r (polls actions m x p refl), z)
