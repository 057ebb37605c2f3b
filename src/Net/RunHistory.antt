-- ===== src/Net/RunHistory.antt =====
-- A client's loop as a history of its timer engine.
use qing.Common.{
  ℕ, ◌≡◌, refl, some, List, [], ◌∷◌, ◌>>=◌, Option-cases, inl, inr, if◌then◌else◌, Bool, true,
  false, not, Bool-cases,
}
use qing.Timer.Defs.{TimerThread, Call, Host, apply_call, apply_calls, update_all}
use qing.Timer.History.{Event, calls, passes, happen, history}
use qing.Net.Run.{Round, TcpClient, stop, run}

abbrev pub all_calls : List Call → List Event → List Event
all_calls [] xs = xs
all_calls (c ∷ cs) xs = calls c ∷ all_calls cs xs

-- A pass and the calls of the handlers, for each round up to the first that stops, if the client
-- is `running`.
abbrev pub events : ℕ → Bool → List Round → List Event
events fuel running [] = []
events fuel running (round ∷ rounds) =
    let rest = events fuel (not round.stops) rounds in
    if running then passes fuel ∷ all_calls round.polled rest else []

-- The rounds that are not begun, and whether the client still runs then.
abbrev pub run_end : Bool → List Round → List Round × Bool
run_end running [] = ([], running)
run_end running (round ∷ rounds) =
    let rest = run_end (not round.stops) rounds in if running then rest else (round ∷ rounds, false)

module _ (h : Host) (fuel : ℕ) where
  history-all_calls :
      (cs : List Call) (xs : List Event) (e : TimerThread)
      → history h (all_calls cs xs) e ≡ (apply_calls h cs e >>= history h xs)
  unfolding history happen apply_calls
  history-all_calls [] xs e = refl
  history-all_calls (c ∷ cs) xs e = elim (Option-cases (apply_call h c e)) [
    | inl p ↦ rw p
    | inr (e1, p) ↦ rw p (history-all_calls cs xs e1)
  ]

  -- The loop of a client does to its timer engine what the history of its passes, and of the calls
  -- that its handlers make, does, up to the first round that stops it; it ends there with
  -- `_bIsRun` false, and the rounds behind are not begun; a client that was stopped before begins
  -- none. Nothing else of the client changes.
  pub run-history :
      (rounds : List Round) (c : TcpClient)
      → run h fuel rounds c ≡ (
          history h (events fuel c.is_run rounds) c.time_engine >>= λ e. some (
            (run_end c.is_run rounds).0,
            record c { is_run = (run_end c.is_run rounds).1; time_engine = e },
          ))
  unfolding run history happen stop
  run-history [] c = refl
  run-history (round ∷ rounds) c = elim (Bool-cases c.is_run) [
    | inr off ↦ rw off refl
    | inl on ↦ rw on (elim (Option-cases (update_all h fuel c.time_engine)) [
      | inl p ↦ rw p
      | inr (e1, p) ↦
          let xs = events fuel (not round.stops) rounds in
          elim (Option-cases (apply_calls h round.polled e1)) [
            | inl q ↦ rw (p, history-all_calls round.polled xs e1, q)
            | inr (e2, q) ↦
                rw (p, history-all_calls round.polled xs e1, q)
                  (elim (Bool-cases round.stops) [
                    | inl stops ↦
                        rw stops
                          (run-history rounds (record c { time_engine = e2; is_run = false }))
                    | inr goes ↦
                        rw goes (run-history rounds (record c { time_engine = e2; is_run = true }))
                  ])
          ]
    ])
  ]
