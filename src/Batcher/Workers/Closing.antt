-- ===== src/Batcher/Workers/Closing.antt =====
-- Close of the batcher, for every order in which its goroutines run: it comes to its end, and what is
-- left then.
use tallyd.Base.{
  ℕ, suc, ◌+◌, ◌≡◌, sym, subst, ◌⊎◌, String, Bool, some, List, [], ◌∷◌, ◌++◌, append_assoc,
  append-nil,
}
use tallyd.Batcher.{RetryPolicy, Queued, Adapter}
use tallyd.Batcher.Workers.{
  selecting, returned, Workers, Ready, timer_ready, close_ready, turn, enqueue, fire, end_flush,
}
use tallyd.Batcher.Workers.{Run, enqueues, turns, ends_flush, fires}
use tallyd.Batcher.Workers.Turns.{copies, acked}
use tallyd.Batcher.Workers.Progress.{Wakes}

-- What Close waits for.
abbrev pub IsClosed : Workers → Type 0
IsClosed s = (s.phase ≡ returned) × (s.in_flight ≡ [])

module _ (join : String → String) (policy : RetryPolicy) (limit : ℕ) where
  -- A schedule behind the state `s`: the moves of the loop and of the flushes in it, the enqueues and
  -- the timers of retries, which reach the channel or are dropped, and the events that Enqueue was
  -- called with. Only a tick of the linger timer with nothing pending is not counted.
  pub data Schedule (s : Workers) : ℕ → ℕ → List Queued → Workers → Type 0 where
    begins : Schedule s 0 0 [] s
    moves :
        {n k : ℕ} {qs : List Queued} {t u : Workers} (ready : Ready)
        → Wakes ready t.pending
        → turn limit ready t ≡ some u
        → Schedule s n k qs t
        → Schedule s (suc n) k qs u
    ticks :
        {n k : ℕ} {qs : List Queued} {t u : Workers}
        → t.phase ≡ selecting
        → t.pending ≡ []
        → turn limit timer_ready t ≡ some u
        → Schedule s n k qs t
        → Schedule s n k qs u
    ends :
        {n k : ℕ} {qs : List Queued} {t : Workers} (adapter : Adapter) (now : ℕ)
        (before : List (List Queued)) (batch : List Queued) (after : List (List Queued))
        → t.in_flight ≡ before ++ batch ∷ after
        → Schedule s n k qs t
        → Schedule s (suc n) k qs (end_flush adapter join policy now before batch after t)
    arrives :
        {n k : ℕ} {qs : List Queued} {t u : Workers} (close_first : Bool) (q : Queued)
        → enqueue close_first q t ≡ some u
        → Schedule s n k qs t
        → Schedule s n (suc k) (qs ++ q ∷ []) u
    comes_back :
        {n k : ℕ} {qs : List Queued} {t u : Workers} (close_first : Bool) (before : List Queued)
        (q : Queued) (after : List Queued)
        → t.timers ≡ before ++ q ∷ after
        → fire close_first before q after t ≡ some u
        → Schedule s n k qs t
        → Schedule s n (suc k) qs u

  -- Another move that counts is there: the loop's close case or what it stands at, or the end of a
  -- flush.
  abbrev pub CanMove : Workers → Type 0
  CanMove t =
      ((u : Workers) × (turn limit close_ready t ≡ some u))
      ⊎ ((batch : List Queued) × (after : List (List Queued)) × (t.in_flight ≡ batch ∷ after))

  -- Every event that Enqueue was called with, once Close is at its end.
  abbrev pub IsSettled : List Queued → Workers → Type 0
  IsSettled qs t =
      (id : String)
      → copies id t.channel + copies id t.timers + copies id t.dropped + acked id t.calls
        ≡ copies id qs

  pub Schedule-Run :
      {s t : Workers} {n k : ℕ} {rs : List Queued} (qs : List Queued)
      → Run join policy limit qs s
      → Schedule s n k rs t
      → Run join policy limit (qs ++ rs) t
  Schedule-Run {s = s} qs r begins = subst (λ l. Run join policy limit l s) (sym (append-nil qs)) r
  Schedule-Run qs r (moves ready w e h) = turns ready e (Schedule-Run qs r h)
  Schedule-Run qs r (ticks p q e h) = turns timer_ready e (Schedule-Run qs r h)
  Schedule-Run qs r (ends adapter now before batch after e h) =
      ends_flush adapter now before batch after e (Schedule-Run qs r h)
  Schedule-Run qs r (arrives {qs = rs} {u = u} close_first q e h) =
      subst (λ l. Run join policy limit l u) (append_assoc qs rs (q ∷ []))
        (enqueues close_first q e (Schedule-Run qs r h))
  Schedule-Run qs r (comes_back close_first before q after e f h) =
      fires close_first before q after e f (Schedule-Run qs r h)
