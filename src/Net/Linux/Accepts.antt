-- ===== src/Net/Linux/Accepts.antt =====
-- A connection keeps the invariant.
use qing.Common.{
  ℕ, suc, ◌<◌, ◌≡◌, refl, ◌∙◌, ◌⊎◌, inl, inr, Bool, true, false, some, ◌∷◌, ◌==◌, ==_iff,
  if◌then◌else◌, Bool-cases, ℤ, pos, negsuc, arith,
}
use qing.Net.Interest.{InterestMasks, event_read, added_event}
use qing.Net.Socket.{Garbage}
use qing.Net.Server.{Server, accept_one}
use qing.Net.Serving
use qing.Net.Linux.Epoll.{Epoll}
use qing.Net.Linux.Serve.{LinuxServer, accept_linux}
use qing.Net.Linux.Watched.{IsWatched, read_mask}

-- What the pointers are after a connection came.
accept_one-came :
    (n : ℕ) (added : Bool) (g : Garbage) (w : Server)
    → (n == 0) ≡ false
    → ((accept_one (pos n) added g w).next_object ≡ suc w.next_object)
      × ((accept_one (pos n) added g w).watched
          ≡ (if added then w.next_object ∷ w.watched else w.watched))
unfolding accept_one
accept_one-came n added g w came = (rw came, rw came)

module _ (m : InterestMasks) (s : Epoll m) where
  open s use {interest}

  -- What the program does with the objects, and a connection that did not come.
  pub quiet-IsWatched :
      (server : Server) (w : LinuxServer m s)
      → Serving.Reach server
      → server.watched ≡ w.server.watched
      → server.next_object ≡ w.server.next_object
      → IsWatched m s w
      → IsWatched m s (record w { server = server })
  quiet-IsWatched server w r watched same_next v = record {
    serves = r;
    known = λ b on. rw watched (v.known b on);
    asked = v.asked;
    once = v.once;
    uncalled = v.uncalled;
    fresh = λ b le. v.fresh b (rw same_next at le);
    reads = v.reads;
  }

  -- The interests after `add`.
  interest_added :
      (id b : ℕ) (k : s.Kernel)
      → let (added, k') = s.ctl_add (added_event m event_read (some id)) k in
        ((added ≡ true) × (b ≡ id) × (interest k' b ≡ read_mask m)) ⊎ (interest k' b ≡ interest k b)
  unfolding added_event
  interest_added id b k =
      let law = s.ctl_add_interest id b (read_mask m) k in
      let added = (s.ctl_add (record { ptr = some id; events = read_mask m }) k).0 in
      elim (Bool-cases added) [
        | inr not_added ↦ inr (law ∙ rw not_added)
        | inl was_added ↦ elim (Bool-cases (b == id)) [
          | inl same ↦ inl (was_added, (==_iff b id).0 same, law ∙ rw (was_added, same))
          | inr other ↦ inr (law ∙ rw (was_added, other))
        ]
      ]

  -- A connection that came, under the next pointer.
  came-IsWatched :
      (n : ℕ) (g : Garbage) (w : LinuxServer m s)
      → (n == 0) ≡ false
      → IsWatched m s w
      → let (added, k) =
          s.ctl_add (added_event m event_read (some w.server.next_object)) w.kernel in
        IsWatched m s (record w { server = accept_one (pos n) added g w.server; kernel = k })
  came-IsWatched n g w came v =
      let id = w.server.next_object in
      let added = (s.ctl_add (added_event m event_read (some id)) w.kernel).0 in
      let (next_object, watched) = accept_one-came n added g w.server came in
      record {
        serves = Serving.next v.serves (Serving.accepts (pos n) added g refl);
        known = λ b on. elim (interest_added id b w.kernel) [
          | inl (was_added, same, _) ↦ rw (watched, was_added) (inl same)
          | inr q ↦
              let old = v.known b (rw q at on) in
              elim (Bool-cases added) [
                | inl was_added ↦ rw (watched, was_added) (inr old)
                | inr not_added ↦ rw (watched, not_added) old
              ]
        ];
        asked = λ b on. elim (interest_added id b w.kernel) [
          | inl (_, _, q) ↦ q
          | inr q ↦ q ∙ v.asked b (rw q at on)
        ];
        once = v.once;
        uncalled = λ b on. elim (interest_added id b w.kernel) [
          | inl (_, same, _) ↦ (v.fresh b (omega arith)).1
          | inr q ↦ v.uncalled b (rw q at on)
        ];
        fresh = λ b le.
            let late : id < b = rw next_object at le in
            elim (interest_added id b w.kernel) [
              | inl (_, same, _) ↦ absurd (omega arith)
              | inr q ↦ let (off, calls) = v.fresh b (omega arith) in (q ∙ off, calls)
            ];
        reads = v.reads;
      }

  pub accept-IsWatched :
      (given : ℤ) (g : Garbage) (w : LinuxServer m s)
      → IsWatched m s w
      → IsWatched m s (accept_linux m s given g w)
  unfolding accept_linux
  accept-IsWatched (negsuc n) g w v =
      quiet-IsWatched (accept_one (negsuc n) false g w.server) w
        (Serving.next v.serves (Serving.accepts (negsuc n) false g refl))
        (unfold accept_one in refl) (unfold accept_one in refl) v
  accept-IsWatched (pos n) g w v = elim (Bool-cases (n == 0)) [
    | inl none_came ↦ rw none_came (
        quiet-IsWatched (accept_one (pos n) false g w.server) w
          (Serving.next v.serves (Serving.accepts (pos n) false g refl))
          (unfold accept_one in rw none_came) (unfold accept_one in rw none_came) v)
    | inr came ↦ rw came (came-IsWatched n g w came v)
  ]
