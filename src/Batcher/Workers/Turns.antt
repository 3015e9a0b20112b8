-- ===== src/Batcher/Workers/Turns.antt =====
-- Where the events of the batcher are, and what one step does to that and to the bounds.
use tallyd.Base.{
  if_both, OnSome, OnSome-if, ℕ, ◌+◌, ◌≡◌, refl, ap, String, Bool, true, false, ◌&&◌, ◌||◌, not,
  none, List, [], ◌∷◌, ◌++◌, ltb, leb, if◌then◌else◌, length, arith, str_eq,
}
use tallyd.Batcher.{Queued, Call, puts_dlq, acks, records_ack, records_send_error, schedules_retry}
use tallyd.Batcher.Workers.{
  RunPhase, selecting, acquiring, emptying, returned, Workers, queue_capacity,
  default_max_in_flight, enqueue, begin_flush, Ready, event_ready, timer_ready, close_ready,
  receive, select_case, empty_channel, acquire, phase_turn, turn,
}

-- How often an id stands among events, and among the acks.
abbrev pub copies : String → List Queued → ℕ
copies id [] = 0
copies id (q ∷ qs) = (if str_eq q.event.id id then 1 else 0) + copies id qs

abbrev pub copies_in : String → List (List Queued) → ℕ
copies_in id [] = 0
copies_in id (b ∷ bs) = copies id b + copies_in id bs

abbrev pub acked : String → List Call → ℕ
acked id [] = 0
acked id (puts_dlq e reason permanent ∷ cs) = acked id cs
acked id (acks i d ∷ cs) = (if str_eq i id then 1 else 0) + acked id cs
acked id (records_ack d ∷ cs) = acked id cs
acked id (records_send_error d ∷ cs) = acked id cs
acked id (schedules_retry q ∷ cs) = acked id cs

pub copies-append :
    (id : String) (xs ys : List Queued) → copies id (xs ++ ys) ≡ copies id xs + copies id ys
copies-append id [] ys = omega arith
copies-append id (x ∷ xs) ys = omega (arith, copies-append id xs ys)

pub copies_in-append :
    (id : String) (xs ys : List (List Queued))
    → copies_in id (xs ++ ys) ≡ copies_in id xs + copies_in id ys
copies_in-append id [] ys = omega arith
copies_in-append id (x ∷ xs) ys = omega (arith, copies_in-append id xs ys)

pub acked-append :
    (id : String) (xs ys : List Call) → acked id (xs ++ ys) ≡ acked id xs + acked id ys
acked-append id [] ys = omega arith
acked-append id (puts_dlq e reason permanent ∷ xs) ys = acked-append id xs ys
acked-append id (acks i d ∷ xs) ys = omega (arith, acked-append id xs ys)
acked-append id (records_ack d ∷ xs) ys = acked-append id xs ys
acked-append id (records_send_error d ∷ xs) ys = acked-append id xs ys
acked-append id (schedules_retry q ∷ xs) ys = acked-append id xs ys

abbrev pub held : RunPhase → List Queued
held selecting = []
held (acquiring batch leaving) = batch
held emptying = []
held returned = []

-- Every place where an event with this id can be.
abbrev pub everywhere : String → Workers → ℕ
everywhere id s =
    copies id s.channel
    + (copies id s.pending
        + (copies id (held s.phase)
            + (copies_in id s.in_flight
                + (copies id s.timers + (copies id s.dropped + acked id s.calls)))))

begin_flush-everywhere :
    (id : String) (ps : List Queued) (leaving : Bool) (s : Workers)
    → held s.phase ≡ []
    → everywhere id (begin_flush ps leaving s) + copies id s.pending
      ≡ everywhere id s + copies id ps
unfolding begin_flush
begin_flush-everywhere id [] true s p = rw p (omega arith)
begin_flush-everywhere id [] false s p = rw p (omega arith)
begin_flush-everywhere id (q ∷ qs) leaving s p = rw p (omega arith)

abbrev Keeps : String → Workers → Workers → Type 0
Keeps id s t = everywhere id t ≡ everywhere id s

receive-Keeps :
    (id : String) (limit : ℕ) (ch : List Queued) (s : Workers)
    → held s.phase ≡ []
    → s.channel ≡ ch
    → OnSome (Keeps id s) (receive limit ch s)
unfolding receive
receive-Keeps id limit [] s p c = tt
receive-Keeps id limit (q ∷ qs) s p c =
    let grown = s.pending ++ q ∷ [] in
    let s' = record s { channel = qs; pending = grown } in
    let kept : Keeps id s s' = rw c (omega (arith, copies-append id s.pending (q ∷ []))) in
    if_both (Keeps id s) (leb limit (length grown)) _ s'
      (λ full. omega (arith, begin_flush-everywhere id grown false s' p, kept)) (λ room. kept)

empty_channel-Keeps :
    (id : String) (ch : List Queued) (s : Workers)
    → held s.phase ≡ []
    → s.channel ≡ ch
    → OnSome (Keeps id s) (empty_channel ch s)
unfolding empty_channel
empty_channel-Keeps id [] s p c = omega (arith, begin_flush-everywhere id s.pending true s p)
empty_channel-Keeps id (q ∷ qs) s p c = rw c (omega (arith, copies-append id s.pending (q ∷ [])))

acquire-Keeps :
    (id : String) (batch : List Queued) (leaving : Bool) (s : Workers)
    → held s.phase ≡ batch
    → OnSome (Keeps id s) (acquire batch leaving s)
unfolding acquire
acquire-Keeps id batch leaving s p =
    OnSome-if (Keeps id s) (ltb (length s.in_flight) default_max_in_flight) _ none
      (λ room. moved leaving) (λ full. tt)
  where
    moved :
        (b : Bool)
        → Keeps id s (record s {
          in_flight = s.in_flight ++ batch ∷ [];
          phase = if b then returned else selecting;
        })
    moved true = rw p (omega (arith, copies_in-append id s.in_flight (batch ∷ [])))
    moved false = rw p (omega (arith, copies_in-append id s.in_flight (batch ∷ [])))

select_case-Keeps :
    (id : String) (limit : ℕ) (ready : Ready) (s : Workers)
    → held s.phase ≡ []
    → OnSome (Keeps id s) (select_case limit ready s)
unfolding select_case
select_case-Keeps id limit event_ready s p = receive-Keeps id limit s.channel s p refl
select_case-Keeps id limit timer_ready s p =
    omega (arith, begin_flush-everywhere id s.pending false s p)
select_case-Keeps id limit close_ready s p =
    OnSome-if (Keeps id s) s.closing _ none (λ closed. rw p (omega arith)) (λ quiet. tt)

phase_turn-Keeps :
    (id : String) (limit : ℕ) (ready : Ready) (phase : RunPhase) (s : Workers)
    → s.phase ≡ phase
    → OnSome (Keeps id s) (phase_turn limit ready phase s)
unfolding phase_turn
phase_turn-Keeps id limit ready selecting s p = select_case-Keeps id limit ready s (ap held p)
phase_turn-Keeps id limit ready (acquiring batch leaving) s p =
    acquire-Keeps id batch leaving s (ap held p)
phase_turn-Keeps id limit ready emptying s p = empty_channel-Keeps id s.channel s (ap held p) refl
phase_turn-Keeps id limit ready returned s p = tt

-- A turn of the run loop only moves events.
pub turn-everywhere :
    (id : String) (limit : ℕ) (ready : Ready) (s : Workers)
    → OnSome (λ t. everywhere id t ≡ everywhere id s) (turn limit ready s)
unfolding turn
turn-everywhere id limit ready s = phase_turn-Keeps id limit ready s.phase s refl

-- enqueue puts its event into the channel, or drops it.
pub enqueue-everywhere :
    (id : String) (close_first : Bool) (q : Queued) (s : Workers)
    → OnSome (λ t. everywhere id t ≡ everywhere id s + copies id (q ∷ [])) (enqueue close_first q s)
unfolding enqueue
enqueue-everywhere id close_first q s =
    let Adds : Workers → Type 0 = λ t. everywhere id t ≡ everywhere id s + copies id (q ∷ []) in
    let room = ltb (length s.channel) queue_capacity in
    OnSome-if Adds (s.closing && (close_first || not room)) _ _
      (λ drops. omega (arith, copies-append id s.dropped (q ∷ [])))
      (λ keeps.
        OnSome-if Adds room _ none (λ fits. omega (arith, copies-append id s.channel (q ∷ [])))
          (λ full. tt))
