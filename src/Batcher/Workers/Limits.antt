-- ===== src/Batcher/Workers/Limits.antt =====
-- The bounds of the batcher, and that a turn of the run loop keeps them.
use tallyd.Base.{
  ltb→lt, if_both, OnSome, OnSome-if, ℕ, suc, ◌≤◌, ◌<◌, ◌≡◌, refl, sym, ◌∙◌, subst, Bool, true,
  false, none, List, [], ◌∷◌, ◌++◌, ltb, leb, if◌then◌else◌, length, length_snoc, arith,
}
use tallyd.Batcher.{Queued}
use tallyd.Batcher.Workers.{
  RunPhase, selecting, acquiring, emptying, returned, Workers, queue_capacity,
  default_max_in_flight, begin_flush, Ready, event_ready, timer_ready, close_ready, receive,
  select_case, empty_channel, acquire, phase_turn, turn,
}

-- The bounds. A batch that is larger than the limit there is only behind a close.
abbrev pub AllWithin : ℕ → List (List Queued) → Type 0
AllWithin limit [] = Unit {0}
AllWithin limit (b ∷ bs) = (0 < length b) × (length b ≤ limit) × AllWithin limit bs

abbrev pub PhaseFits : ℕ → Bool → RunPhase → List Queued → Type 0
PhaseFits limit closing selecting pending = length pending < limit
PhaseFits limit closing (acquiring batch false) pending =
    (pending ≡ []) × (0 < length batch) × (length batch ≤ limit)
PhaseFits limit closing (acquiring batch true) pending =
    (pending ≡ []) × (0 < length batch) × (closing ≡ true)
PhaseFits limit closing emptying pending = closing ≡ true
PhaseFits limit closing returned pending = (pending ≡ []) × (closing ≡ true)

pub record IsBounded (limit : ℕ) (s : Workers) : Type 0 where
  pub queue : length s.channel ≤ queue_capacity
  pub flights : length s.in_flight ≤ default_max_in_flight
  pub phase : PhaseFits limit s.closing s.phase s.pending
  pub batches : s.closing ≡ false → AllWithin limit s.in_flight

AllWithin-append :
    (limit : ℕ) (xs ys : List (List Queued))
    → AllWithin limit xs
    → AllWithin limit ys
    → AllWithin limit (xs ++ ys)
AllWithin-append limit [] ys h k = k
AllWithin-append limit (x ∷ xs) ys h k = (h.0, h.1, AllWithin-append limit xs ys h.2 k)

pub AllWithin-drop :
    (limit : ℕ) (xs : List (List Queued)) (b : List Queued) (ys : List (List Queued))
    → AllWithin limit (xs ++ b ∷ ys)
    → AllWithin limit (xs ++ ys)
AllWithin-drop limit [] b ys h = h.2
AllWithin-drop limit (x ∷ xs) b ys h = (h.0, h.1, AllWithin-drop limit xs b ys h.2)

module _ (limit : ℕ) (positive : 0 < limit) where
  begin_flush-PhaseFits :
      (ps : List Queued) (s : Workers)
      → length ps ≤ limit
      → let t = begin_flush ps false s in PhaseFits limit t.closing t.phase t.pending
  unfolding begin_flush
  begin_flush-PhaseFits [] s h = positive
  begin_flush-PhaseFits (q ∷ qs) s h = (refl, omega arith, h)

  begin_flush-leaves :
      (ps : List Queued) (s : Workers)
      → s.closing ≡ true
      → let t = begin_flush ps true s in PhaseFits limit t.closing t.phase t.pending
  unfolding begin_flush
  begin_flush-leaves [] s c = (refl, c)
  begin_flush-leaves (q ∷ qs) s c = (refl, omega arith, c)

  -- A step that leaves the flushes alone.
  pub moved-IsBounded :
      (s t : Workers)
      → IsBounded limit s
      → t.closing ≡ s.closing
      → t.in_flight ≡ s.in_flight
      → length t.channel ≤ queue_capacity
      → PhaseFits limit t.closing t.phase t.pending
      → IsBounded limit t
  moved-IsBounded s t b c f q p = record {
    queue = q;
    flights = rw f b.flights;
    phase = p;
    batches = λ quiet. rw f (b.batches (sym c ∙ quiet));
  }

  begin_flush-IsBounded :
      (ps : List Queued) (leaving : Bool) (s : Workers)
      → length s.channel ≤ queue_capacity
      → length s.in_flight ≤ default_max_in_flight
      → (s.closing ≡ false → AllWithin limit s.in_flight)
      → (let t = begin_flush ps leaving s in PhaseFits limit t.closing t.phase t.pending)
      → IsBounded limit (begin_flush ps leaving s)
  unfolding begin_flush
  begin_flush-IsBounded [] leaving s q f w p = record {
    queue = q;
    flights = f;
    phase = p;
    batches = w;
  }
  begin_flush-IsBounded (x ∷ xs) leaving s q f w p = record {
    queue = q;
    flights = f;
    phase = p;
    batches = w;
  }

  receive-IsBounded :
      (ch : List Queued) (s : Workers)
      → IsBounded limit s
      → s.phase ≡ selecting
      → s.channel ≡ ch
      → OnSome (IsBounded limit) (receive limit ch s)
  unfolding receive
  receive-IsBounded [] s b p c = tt
  receive-IsBounded (q ∷ qs) s b p c =
      let grown = s.pending ++ q ∷ [] in
      let s' = record s { channel = qs; pending = grown } in
      let small : length s.pending < limit =
        subst (λ ph. PhaseFits limit s.closing ph s.pending) p b.phase in
      let queue : suc (length qs) ≤ queue_capacity =
        subst (λ l. length l ≤ queue_capacity) c b.queue in
      let size = length_snoc s.pending q in
      if_both (IsBounded limit) (leb limit (length grown)) _ s'
        (λ full.
          begin_flush-IsBounded grown false s' (omega arith) b.flights b.batches
            (begin_flush-PhaseFits grown s' (omega arith)))
        (λ room.
          moved-IsBounded s s' b refl refl (omega arith)
            (subst (λ ph. PhaseFits limit s.closing ph grown) (sym p) (ground arith)))

  empty_channel-IsBounded :
      (ch : List Queued) (s : Workers)
      → IsBounded limit s
      → s.phase ≡ emptying
      → s.channel ≡ ch
      → OnSome (IsBounded limit) (empty_channel ch s)
  unfolding empty_channel
  empty_channel-IsBounded [] s b p c =
      let closed : s.closing ≡ true =
        subst (λ ph. PhaseFits limit s.closing ph s.pending) p b.phase in
      begin_flush-IsBounded s.pending true s b.queue b.flights b.batches
        (begin_flush-leaves s.pending s closed)
  empty_channel-IsBounded (q ∷ qs) s b p c =
      let queue : suc (length qs) ≤ queue_capacity =
        subst (λ l. length l ≤ queue_capacity) c b.queue in
      let closed : s.closing ≡ true =
        subst (λ ph. PhaseFits limit s.closing ph s.pending) p b.phase in
      moved-IsBounded s _ b refl refl (omega arith)
        (subst (λ ph. PhaseFits limit s.closing ph (s.pending ++ q ∷ [])) (sym p) closed)

  acquired :
      (batch : List Queued) (leaving : Bool) (s : Workers)
      → IsBounded limit s
      → s.phase ≡ acquiring batch leaving
      → length s.in_flight < default_max_in_flight
      → IsBounded limit (record s {
        in_flight = s.in_flight ++ batch ∷ [];
        phase = if leaving then returned else selecting;
      })
  acquired batch true s b p room =
      let (nothing, some_event, closed) =
        subst (λ ph. PhaseFits limit s.closing ph s.pending) p b.phase in
      record {
        queue = b.queue;
        flights = omega (arith, length_snoc s.in_flight batch);
        phase = (nothing, closed);
        batches = λ quiet. absurd (ground arith);
      }
  acquired batch false s b p room =
      let (nothing, some_event, fits) =
        subst (λ ph. PhaseFits limit s.closing ph s.pending) p b.phase in
      record {
        queue = b.queue;
        flights = omega (arith, length_snoc s.in_flight batch);
        phase = rw nothing positive;
        batches = λ quiet.
            AllWithin-append limit s.in_flight (batch ∷ []) (b.batches quiet)
              (some_event, fits, tt);
      }

  select_case-IsBounded :
      (ready : Ready) (s : Workers)
      → IsBounded limit s
      → s.phase ≡ selecting
      → OnSome (IsBounded limit) (select_case limit ready s)
  unfolding select_case
  select_case-IsBounded event_ready s b p = receive-IsBounded s.channel s b p refl
  select_case-IsBounded timer_ready s b p =
      let small : length s.pending < limit =
        subst (λ ph. PhaseFits limit s.closing ph s.pending) p b.phase in
      begin_flush-IsBounded s.pending false s b.queue b.flights b.batches
        (begin_flush-PhaseFits s.pending s (omega arith))
  select_case-IsBounded close_ready s b p =
      OnSome-if (IsBounded limit) s.closing _ none
        (λ closed. moved-IsBounded s _ b refl refl b.queue closed) (λ quiet. tt)

  phase_turn-IsBounded :
      (ready : Ready) (phase : RunPhase) (s : Workers)
      → IsBounded limit s
      → s.phase ≡ phase
      → OnSome (IsBounded limit) (phase_turn limit ready phase s)
  unfolding phase_turn acquire
  phase_turn-IsBounded ready selecting s b p = select_case-IsBounded ready s b p
  phase_turn-IsBounded ready (acquiring batch leaving) s b p =
      OnSome-if (IsBounded limit) (ltb (length s.in_flight) default_max_in_flight) _ none
        (λ room. acquired batch leaving s b p (ltb→lt _ _ room)) (λ full. tt)
  phase_turn-IsBounded ready emptying s b p = empty_channel-IsBounded s.channel s b p refl
  phase_turn-IsBounded ready returned s b p = tt

  pub turn-IsBounded :
      (ready : Ready) (s : Workers)
      → IsBounded limit s
      → OnSome (IsBounded limit) (turn limit ready s)
  unfolding turn
  turn-IsBounded ready s b = phase_turn-IsBounded ready s.phase s b refl
