-- ===== src/Batcher/Workers/Progress.antt =====
-- What each step of the batcher's goroutines does to the work that is left for its Close.
use tallyd.Base.{
  OnSome, OnSome-if, ℕ, ◌+◌, ◌*◌, ◌≤◌, ◌<◌, ◌≡◌, refl, ap, ◌⊎◌, inl, inr, String, Bool, true, false,
  none, List, [], ◌∷◌, ◌++◌, ltb, leb, ◌&&◌, ◌||◌, not, if◌then◌else◌, length, length_snoc,
  length-append, arith, Bool-cases,
}
use tallyd.Batcher.{RetryPolicy, Queued, Adapter}
use tallyd.Batcher.Workers.{
  RunPhase, selecting, acquiring, emptying, returned, Workers, queue_capacity,
  default_max_in_flight, begin_flush, Ready, event_ready, timer_ready, close_ready, receive,
  select_case, empty_channel, acquire, phase_turn, turn, enqueue, end_flush,
}

-- How many steps are left at most where nothing arrives any more.
abbrev pub phase_work : RunPhase → ℕ
phase_work (acquiring batch false) = 6
phase_work selecting = 4
phase_work emptying = 3
phase_work (acquiring batch true) = 2
phase_work returned = 0

abbrev pub close_work : Workers → ℕ
close_work s = 8 * length s.channel + 3 * length s.pending + length s.in_flight + phase_work s.phase

-- A turn that is not one for the linger timer with nothing pending.
abbrev pub Wakes : Ready → List Queued → Type 0
Wakes timer_ready pending = 0 < length pending
Wakes event_ready pending = Unit {0}
Wakes close_ready pending = Unit {0}

-- What one step of the loop or of a flush does.
pub record Closes (s t : Workers) : Type 0 where
  pub closing : t.closing ≡ s.closing
  pub less : close_work t < close_work s

-- The end of the pending batch.
begin_flush-work :
    (ps : List Queued) (leaving : Bool) (s : Workers)
    → ((begin_flush ps leaving s).closing ≡ s.closing)
      × (close_work (begin_flush ps leaving s)
          ≤ 8 * length s.channel + length s.in_flight + (if leaving then 2 else 6))
unfolding begin_flush
begin_flush-work [] true s = (refl, omega arith)
begin_flush-work [] false s = (refl, omega arith)
begin_flush-work (q ∷ qs) true s = (refl, omega arith)
begin_flush-work (q ∷ qs) false s = (refl, omega arith)

receive-Closes :
    (limit : ℕ) (ch : List Queued) (s : Workers)
    → s.phase ≡ selecting
    → s.channel ≡ ch
    → OnSome (Closes s) (receive limit ch s)
unfolding receive
receive-Closes limit [] s p c = tt
receive-Closes limit (q ∷ qs) s p c =
    let grown = s.pending ++ q ∷ [] in
    let s' : Workers = record s { channel = qs; pending = grown } in
    let (same, work) = begin_flush-work grown false s' in
    elim (Bool-cases (leb limit (length (s.pending ++ q ∷ [])))) [
      | inl full ↦
          rw full
            (record { closing = same; less = omega (arith, work, ap phase_work p, ap length c) })
      | inr room ↦
          rw room
            (record { closing = refl; less = omega (arith, length_snoc s.pending q, ap length c) })
    ]

select_case-Closes :
    (limit : ℕ) (ready : Ready) (s : Workers)
    → s.phase ≡ selecting
    → Wakes ready s.pending
    → OnSome (Closes s) (select_case limit ready s)
unfolding select_case
select_case-Closes limit event_ready s p w = receive-Closes limit s.channel s p refl
select_case-Closes limit timer_ready s p w =
    let (same, work) = begin_flush-work s.pending false s in
    record { closing = same; less = omega (arith, work, w, ap phase_work p) }
select_case-Closes limit close_ready s p w =
    OnSome-if (Closes s) s.closing _ none
      (λ closed. record { closing = refl; less = rw p (omega arith) }) (λ quiet. tt)

empty_channel-Closes :
    (ch : List Queued) (s : Workers)
    → s.phase ≡ emptying
    → s.channel ≡ ch
    → OnSome (Closes s) (empty_channel ch s)
unfolding empty_channel
empty_channel-Closes [] s p c =
    let (same, work) = begin_flush-work s.pending true s in
    record { closing = same; less = omega (arith, work, ap phase_work p) }
empty_channel-Closes (q ∷ qs) s p c = record {
  closing = refl;
  less = rw c (omega (arith, length_snoc s.pending q));
}

acquired-Closes :
    (batch : List Queued) (leaving : Bool) (s : Workers)
    → s.phase ≡ acquiring batch leaving
    → Closes s (record s {
      in_flight = s.in_flight ++ batch ∷ [];
      phase = if leaving then returned else selecting;
    })
acquired-Closes batch true s p = record {
  closing = refl;
  less = rw p (omega (arith, length_snoc s.in_flight batch));
}
acquired-Closes batch false s p = record {
  closing = refl;
  less = rw p (omega (arith, length_snoc s.in_flight batch));
}

phase_turn-Closes :
    (limit : ℕ) (ready : Ready) (phase : RunPhase) (s : Workers)
    → s.phase ≡ phase
    → Wakes ready s.pending
    → OnSome (Closes s) (phase_turn limit ready phase s)
unfolding phase_turn acquire
phase_turn-Closes limit ready selecting s p w = select_case-Closes limit ready s p w
phase_turn-Closes limit ready (acquiring batch leaving) s p w =
    OnSome-if (Closes s) (ltb (length s.in_flight) default_max_in_flight) _ none
      (λ room. acquired-Closes batch leaving s p) (λ full. tt)
phase_turn-Closes limit ready emptying s p w = empty_channel-Closes s.channel s p refl
phase_turn-Closes limit ready returned s p w = tt

pub turn-Closes :
    (limit : ℕ) (ready : Ready) (s : Workers)
    → Wakes ready s.pending
    → OnSome (Closes s) (turn limit ready s)
unfolding turn
turn-Closes limit ready s w = phase_turn-Closes limit ready s.phase s refl w

pub end_flush-Closes :
    (adapter : Adapter) (join : String → String) (policy : RetryPolicy) (now : ℕ)
    (before : List (List Queued)) (b : List Queued) (after : List (List Queued)) (s : Workers)
    → s.in_flight ≡ before ++ b ∷ after
    → Closes s (end_flush adapter join policy now before b after s)
unfolding end_flush
end_flush-Closes adapter join policy now before b after s f = record {
  closing = refl;
  less = rw f (omega (arith, length-append before (b ∷ after), length-append before after));
}

-- A step that does not bring the end nearer, and what it may add.
pub record Delays (more : ℕ) (s t : Workers) : Type 0 where
  pub closing : t.closing ≡ s.closing
  pub bounded : close_work t ≤ more + close_work s

-- The linger timer, with nothing pending.
pub tick-Delays :
    (limit : ℕ) (s : Workers)
    → s.phase ≡ selecting
    → s.pending ≡ []
    → OnSome (Delays 0 s) (turn limit timer_ready s)
unfolding turn phase_turn select_case begin_flush
tick-Delays limit s p e =
    rw (p, e) (record { closing = refl; bounded = omega (arith, ap phase_work p) })

pub enqueue-Delays :
    (close_first : Bool) (q : Queued) (s : Workers) → OnSome (Delays 8 s) (enqueue close_first q s)
unfolding enqueue
enqueue-Delays close_first q s =
    let room = ltb (length s.channel) queue_capacity in
    OnSome-if (Delays 8 s) (s.closing && (close_first || not room)) _ _
      (λ drops. record { closing = refl; bounded = omega arith })
      (λ keeps.
        OnSome-if (Delays 8 s) room _ none
          (λ fits. record { closing = refl; bounded = omega (arith, length_snoc s.channel q) })
          (λ full. tt))

empty_channel-moves : (ch : List Queued) (s : Workers) → ¬ (empty_channel ch s ≡ none)
unfolding empty_channel
empty_channel-moves [] s e = ground arith
empty_channel-moves (q ∷ qs) s e = ground arith

-- Where the run loop cannot move by its close case, it has returned or all slots are taken.
phase_turn-waits :
    (limit : ℕ) (phase : RunPhase) (s : Workers)
    → s.closing ≡ true
    → s.phase ≡ phase
    → phase_turn limit close_ready phase s ≡ none
    → (s.phase ≡ returned) ⊎ (0 < length s.in_flight)
unfolding phase_turn select_case acquire
phase_turn-waits limit selecting s c p e = absurd (ground arith)
phase_turn-waits limit (acquiring batch leaving) s c p e = inr (ground arith)
phase_turn-waits limit emptying s c p e = absurd (empty_channel-moves s.channel s e)
phase_turn-waits limit returned s c p e = inl p

pub turn-waits :
    (limit : ℕ) (s : Workers)
    → s.closing ≡ true
    → turn limit close_ready s ≡ none
    → (s.phase ≡ returned) ⊎ (0 < length s.in_flight)
unfolding turn
turn-waits limit s c e = phase_turn-waits limit s.phase s c refl e
