-- ===== src/Batcher/Queue.antt =====
-- The run loop of batcher.go: which batches it starts.
use tallyd.Base.{
  ℕ, ◌≤◌, ◌<◌, ◌≡◌, refl, sym, ap, ◌∙◌, inl, inr, List, [], ◌∷◌, ◌++◌, leb, length, length_snoc,
  arith, Bool-cases, append_assoc, append-nil,
}
use tallyd.Batcher.{Queued, Input, received, lingered, closes, start_flush, run_step, run}

abbrev pub flatten : List (List Queued) → List Queued
flatten [] = []
flatten (b ∷ bs) = b ++ flatten bs

-- The events that the loop takes, in order.
abbrev pub taken : List Input → List Queued
taken [] = []
taken (received q ∷ is) = q ∷ taken is
taken (lingered ∷ is) = taken is
taken (closes drained ∷ is) = drained

flatten-append : (a b : List (List Queued)) → flatten (a ++ b) ≡ flatten a ++ flatten b
flatten-append [] b = refl
flatten-append (x ∷ a) b =
    ap (λ l. x ++ l) (flatten-append a b) ∙ sym (append_assoc x (flatten a) (flatten b))

flatten-start_flush : (qs : List Queued) → flatten (start_flush qs) ≡ qs
flatten-start_flush [] = refl
flatten-start_flush (q ∷ qs) = append-nil (q ∷ qs)

-- No event is lost, doubled or overtaken: the batches one after the other, and then what is still
-- pending, are the events that were pending and those that were taken, in order.
pub run_conserves :
    (limit : ℕ) (pending : List Queued) (is : List Input)
    → let (left, batches) = run limit pending is in flatten batches ++ left ≡ pending ++ taken is
unfolding run run_step
run_conserves limit pending [] = sym (append-nil pending)
run_conserves limit pending (closes drained ∷ is) =
    append-nil _ ∙ flatten-start_flush (pending ++ drained)
run_conserves limit pending (lingered ∷ is) =
    ap (λ l. l ++ (run limit [] is).0) (flatten-append (start_flush pending) (run limit [] is).1)
    ∙ append_assoc (flatten (start_flush pending)) (flatten (run limit [] is).1) (run limit [] is).0
    ∙ ap (λ l. l ++ (flatten (run limit [] is).1 ++ (run limit [] is).0))
        (flatten-start_flush pending)
    ∙ ap (λ l. pending ++ l) (run_conserves limit [] is)
run_conserves limit pending (received q ∷ is) =
    elim (Bool-cases (leb limit (length (pending ++ q ∷ [])))) [
      | inl full ↦
          let grown = pending ++ q ∷ [] in
          rw full (
            ap (λ l. l ++ (run limit [] is).0)
              (flatten-append (start_flush grown) (run limit [] is).1)
            ∙ append_assoc (flatten (start_flush grown)) (flatten (run limit [] is).1)
                (run limit [] is).0
            ∙ ap (λ l. l ++ (flatten (run limit [] is).1 ++ (run limit [] is).0))
                (flatten-start_flush grown)
            ∙ ap (λ l. grown ++ l) (run_conserves limit [] is)
            ∙ append_assoc pending (q ∷ []) (taken is))
      | inr room ↦
          rw room
            (run_conserves limit (pending ++ q ∷ []) is ∙ append_assoc pending (q ∷ []) (taken is))
    ]

-- No close among the inputs.
abbrev pub IsOpen : List Input → Type 0
IsOpen [] = Unit {0}
IsOpen (received q ∷ is) = IsOpen is
IsOpen (lingered ∷ is) = IsOpen is
IsOpen (closes drained ∷ is) = ⊥

abbrev pub AllAtMost : ℕ → List (List Queued) → Type 0
AllAtMost limit [] = Unit {0}
AllAtMost limit (b ∷ bs) = (length b ≤ limit) × AllAtMost limit bs

AllAtMost-append :
    (limit : ℕ) (a b : List (List Queued))
    → AllAtMost limit a
    → AllAtMost limit b
    → AllAtMost limit (a ++ b)
AllAtMost-append limit [] b h k = k
AllAtMost-append limit (x ∷ a) b h k = (h.0, AllAtMost-append limit a b h.1 k)

start_flush-AllAtMost :
    (limit : ℕ) (qs : List Queued) → length qs ≤ limit → AllAtMost limit (start_flush qs)
start_flush-AllAtMost limit [] h = tt
start_flush-AllAtMost limit (q ∷ qs) h = (h, tt)

-- If fewer events than the provider's limit are pending, then until the close no batch is larger
-- than the limit, and fewer than the limit stay pending.
pub run_bounded :
    (limit : ℕ) (pending : List Queued) (is : List Input)
    → length pending < limit
    → IsOpen is
    → let (left, batches) = run limit pending is in AllAtMost limit batches × (length left < limit)
unfolding run run_step
run_bounded limit pending [] h o = (tt, h)
run_bounded limit pending (closes drained ∷ is) h o = absurd o
run_bounded limit pending (lingered ∷ is) h o =
    let (b, l) = run_bounded limit [] is (omega arith) o in
    (
      AllAtMost-append limit (start_flush pending) (run limit [] is).1
          (start_flush-AllAtMost limit pending (omega arith)) b,
      l,
    )
run_bounded limit pending (received q ∷ is) h o =
    let grown = length_snoc pending q in
    elim (Bool-cases (leb limit (length (pending ++ q ∷ [])))) [
      | inl full ↦
          let (b, l) = run_bounded limit [] is (omega arith) o in
          rw full (
            AllAtMost-append limit (start_flush (pending ++ q ∷ [])) (run limit [] is).1
                (start_flush-AllAtMost limit (pending ++ q ∷ []) (omega (arith, grown))) b,
            l,
          )
      | inr room ↦ rw room (run_bounded limit (pending ++ q ∷ []) is (ground (arith, grown)) o)
    ]
