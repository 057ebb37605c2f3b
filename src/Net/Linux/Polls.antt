-- ===== src/Net/Linux/Polls.antt =====
-- A poll keeps the invariant, and ends.
use mathlib.Core.List.{append-nil}
use qing.Common.{
  ℕ, ◌^◌, ◌<◌, ◌≡◌, ◌≢◌, ◌∙◌, inl, inr, true, false, some, List, [], ◌==◌, ==_iff, ne_of_==_false,
  Bool-cases, length, pos, arith,
}
use mathlib.Core.Path.{subst}
use qing.Net.Poller.{EpollEvent, EpollMasks, poll_epoll}
use qing.Net.Events.{epoll_actions, poll_epoll_calls}
use qing.Net.Interest.{InterestMasks}
use qing.Net.Interests.{IsLinux, read_interest}
use qing.Net.Socket.{TcpSocket}
use qing.Net.Server.{Server, deliver_all}
use qing.Net.Objects.{AllAmong}
use qing.Net.Serving
use qing.Net.Serving.{poll-Reach}
use qing.Net.Targets.{epoll_actions-AllTargets}
use qing.Net.Linux.Epoll.{reports, Epoll}
use qing.Net.Linux.Serve.{LinuxServer, poll_linux}
use qing.Net.Linux.Events.{
  calls_of-append, AllReads-append, calls_of-epoll_actions, epoll_actions-AllReads,
  AllAsked-AllAmong, unasked-reports,
}
use qing.Net.Linux.Watched.{IsWatched, polled}

-- A poll in which every entry of the array was reported.
polls_all :
    (masks : EpollMasks) (evs : List EpollEvent) {w : Server}
    → Serving.Reach w
    → AllAmong w.watched evs
    → length evs < 2 ^ 32
    → (objects : List (ℕ × TcpSocket)) × (poll_epoll masks (pos (length evs)) false evs
        ≡ some (true, epoll_actions masks evs))
      × (deliver_all (epoll_actions masks evs) w.objects ≡ some objects)
      × Serving.Reach (record w { objects = objects })
polls_all masks evs {w} r among few =
    let (objects, p, reached, _) =
      poll-Reach (epoll_actions masks evs) r (epoll_actions-AllTargets masks w.watched evs among) in
    (
      objects,
      subst
          (λ xs.
            poll_epoll masks (pos (length evs)) false xs ≡ some (true, epoll_actions masks evs))
          (append-nil evs) (poll_epoll_calls masks evs [] false few),
      p,
      reached,
    )

module _ (m : InterestMasks) (s : Epoll m) (linux : IsLinux m) where
  open s use {interest}

  pub poll_linux-polled :
      (n : ℕ) (w : LinuxServer m s)
      → IsWatched m s w
      → (objects : List (ℕ × TcpSocket)) × (poll_linux m s n w
          ≡ some (true, polled m s n objects w))
        × Serving.Reach (record w.server { objects = objects })
  unfolding poll_linux
  poll_linux-polled n w v =
      let evs = (s.wait n w.kernel).0 in
      let few : length evs < 2 ^ 32 = omega (arith, s.wait_length n w.kernel) in
      let among =
        AllAsked-AllAmong m (interest w.kernel) w.server.watched evs v.known
          (s.wait_asked n w.kernel) in
      let (objects, p, q, r) = polls_all m.calls evs v.serves among few in (objects, rw (p, q), r)

  -- What an interest that a poll leaves was before it, and that its object was not reported.
  interest_before :
      (n b : ℕ) (w : LinuxServer m s)
      → IsWatched m s w
      → interest (s.wait n w.kernel).1 b ≢ 0
      → (interest (s.wait n w.kernel).1 b ≡ interest w.kernel b)
        × (interest w.kernel b ≢ 0)
        × (reports b (s.wait n w.kernel).0 ≡ 0)
  interest_before n b w v on = elim (s.wait_interest n b w.kernel) [
    | inl off ↦ absurd (on off)
    | inr (same, kept) ↦
        let was : interest w.kernel b ≢ 0 = λ off. on (same ∙ off) in
        (
          same,
          was,
          elim kept [
            | inl q ↦ q
            | inr several ↦ cc (several, v.asked b was, (read_interest m linux).2)
          ],
        )
  ]

  pub poll-IsWatched :
      (n : ℕ) (objects : List (ℕ × TcpSocket)) (w : LinuxServer m s)
      → Serving.Reach (record w.server { objects = objects })
      → IsWatched m s w
      → IsWatched m s (polled m s n objects w)
  poll-IsWatched n objects w r v =
      let k = (s.wait n w.kernel).1 in
      let evs = (s.wait n w.kernel).0 in
      let actions = epoll_actions m.calls evs in
      let before = λ (b : ℕ) (on : interest k b ≢ 0). interest_before n b w v on in
      let sum = λ (b : ℕ). calls_of-append b w.made actions in
      let fewer = λ (b : ℕ). calls_of-epoll_actions m b evs in
      record {
        serves = r;
        known = λ b on. v.known b (before b on).1;
        asked = λ b on. (before b on).0 ∙ v.asked b (before b on).1;
        once = λ b. elim (Bool-cases (interest w.kernel b == 0)) [
          | inl off ↦
              let none_now =
                unasked-reports m (interest w.kernel) b evs ((==_iff _ 0).0 off)
                  (s.wait_asked n w.kernel) in
              omega (arith, sum b, fewer b, none_now, v.once b)
          | inr on ↦ omega (
            arith,
            sum b,
            fewer b,
            s.wait_once n b w.kernel,
            v.uncalled b (ne_of_==_false _ 0 on),
          )
        ];
        uncalled =
            λ b on. omega (arith, sum b, fewer b, (before b on).2, v.uncalled b (before b on).1);
        fresh = λ b le.
            let (off, uncalled) = v.fresh b le in
            let none_now =
              unasked-reports m (interest w.kernel) b evs off (s.wait_asked n w.kernel) in
            (
              elim (s.wait_interest n b w.kernel) [ inl q ↦ q | inr (same, _) ↦ same ∙ off ],
              omega (arith, sum b, fewer b, none_now, uncalled),
            );
        reads = AllReads-append w.made actions v.reads (
            epoll_actions-AllReads m (interest w.kernel) evs
              (λ b on. rw (v.asked b on) (read_interest m linux).1) (s.wait_asked n w.kernel));
      }
