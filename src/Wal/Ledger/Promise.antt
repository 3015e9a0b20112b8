-- ===== src/Wal/Ledger/Promise.antt =====
-- What the ledger of internal/wal/wal.go keeps: an append that was answered with nil is owed to each
-- of its providers until an ack of that provider, or an append of the same id, is answered.
use tallyd.Base.{
  ◌≡◌, refl, sym, ap, subst, map, ◌∙◌, inl, inr, String, Bool, true, false, ◌&&◌, Option, none,
  some, List, [], ◌∷◌, ◌++◌, str_eq, eq_iff, str_eq-cases, if◌then◌else◌, Map, lookup, arith,
  Option-cases,
}
use mathlib.Core.Bool.{Bool-set}
use mathlib.Core.Quot
use tallyd.Adapter.{Event}
use tallyd.Wal.Log.{Wal, EntryState, member}
use tallyd.Wal.Commit.{Json, Change, appends, acks, Request, Faults, commit_batch}
use tallyd.Wal.Recovery.Crash.{Reach, opened, committed, restarted}
use tallyd.Wal.Ledger.{
  Providers, set_of, strike, nobody, Obligation, Ledger, empty_ledger, owe, struck, discharge,
  ledger_change, ledger_batch, obligation_of, ledger_of,
}
use tallyd.Wal.Ledger.Sets.{member-without, empty-member}
use tallyd.Wal.Ledger.Refinement.{history}

-- The changes of the requests that were answered with a nil error.
abbrev pub answered_changes : List (Request × Faults) → List Bool → List Change
answered_changes [] answers = []
answered_changes (r ∷ rs) [] = []
answered_changes (r ∷ rs) (answer ∷ answers) =
    let rest = answered_changes rs answers in if answer then r.0.change ∷ rest else rest

abbrev pub ledger_changes : List Change → Ledger → Ledger
ledger_changes [] ledger = ledger
ledger_changes (c ∷ cs) ledger = ledger_changes cs (ledger_change c ledger)

ledger_changes-append :
    (cs ds : List Change) (l : Ledger)
    → ledger_changes (cs ++ ds) l ≡ ledger_changes ds (ledger_changes cs l)
ledger_changes-append [] ds l = refl
ledger_changes-append (c ∷ cs) ds l = ledger_changes-append cs ds (ledger_change c l)

pub ledger_batch-changes :
    (rs : List (Request × Faults)) (answers : List Bool) (l : Ledger)
    → ledger_batch rs answers l ≡ ledger_changes (answered_changes rs answers) l
unfolding ledger_batch
ledger_batch-changes [] answers l = refl
ledger_batch-changes (r ∷ rs) [] l = refl
ledger_batch-changes (r ∷ rs) (true ∷ answers) l =
    ledger_batch-changes rs answers (ledger_change r.0.change l)
ledger_batch-changes (r ∷ rs) (false ∷ answers) l = ledger_batch-changes rs answers l

-- The answered changes of a history, in their order.
unfoldable pub answered : {json : Json} {w : Wal} → Reach json w → List Change
answered (opened ms mb e) = []
answered (committed {w = w} batch clean r) =
    answered r ++ answered_changes batch (commit_batch batch true w).1
answered (restarted ms mb r e) = answered r

history-answered :
    {json : Json} {w : Wal} (r : Reach json w)
    → history r ≡ ledger_changes (answered r) empty_ledger
unfolding history answered
history-answered (opened ms mb e) = refl
history-answered (committed {w = w} batch clean r) =
    ledger_batch-changes batch (commit_batch batch true w).1 (history r)
    ∙ ap (ledger_changes (answered_changes batch (commit_batch batch true w).1))
        (history-answered r)
    ∙ sym (ledger_changes-append (answered r) _ empty_ledger)
history-answered (restarted ms mb r e) = history-answered r

abbrev event_or : Event → Option Obligation → Event
event_or e none = e
event_or e (some o) = o.event

abbrev owed_or : Option Obligation → Providers
owed_or none = set_of []
owed_or (some o) = o.owed

-- Membership in a set of providers.
unfoldable owed_to : String → Providers → Bool
owed_to p = Quot.lift Bool-set (member p) (λ ps qs same. same p)

owed_to-strike :
    (p q : String) (s : Providers)
    → owed_to p (strike q s) ≡ (if str_eq q p then false else owed_to p s)
unfolding owed_to strike
owed_to-strike p q =
    Quot.ind (λ s. Bool-set (owed_to p (strike q s)) (if str_eq q p then false else owed_to p s))
      (λ ps. member-without p q ps)

-- Nobody is in an empty set.
owed_to-nobody : (p : String) (s : Providers) → (owed_to p s && nobody s) ≡ false
unfolding owed_to nobody
owed_to-nobody p =
    Quot.ind (λ s. Bool-set (owed_to p s && nobody s) false)
      (λ ps. ground (arith, empty-member p ps))

-- The event is owed to the provider.
pub IsOwed : String → Event → Ledger → Type 0
IsOwed p e ledger =
    (o : Obligation) × (ledger e.id ≡ some o) × (o.event ≡ e) × (owed_to p o.owed ≡ true)

-- Whether a change can end what is owed to `p` under an id: an append of the id, or an ack of it by
-- the provider.
abbrev pub ends : String → String → Change → Bool
ends id p (appends e ps) = str_eq e.id id
ends id p (acks i q) = str_eq i id && str_eq q p

abbrev pub NoneEnds : String → String → List Change → Type 0
NoneEnds id p [] = Unit {0}
NoneEnds id p (c ∷ cs) = (ends id p c ≡ false) × NoneEnds id p cs

NoneEnds-append :
    (id p : String) (cs ds : List Change)
    → NoneEnds id p cs
    → NoneEnds id p ds
    → NoneEnds id p (cs ++ ds)
NoneEnds-append id p [] ds h g = g
NoneEnds-append id p (c ∷ cs) ds h g = (h.0, NoneEnds-append id p cs ds h.1 g)

append-IsOwed :
    (p : String) (e : Event) (ps : List String) (l : Ledger)
    → member p ps ≡ true
    → IsOwed p e (ledger_change (appends e ps) l)
unfolding ledger_change owe set_of owed_to IsOwed
append-IsOwed p e ps l h =
    (record { event = e; owed = set_of ps }, rw ((eq_iff e.id e.id).1 refl) refl, refl, h)

struck-IsOwed :
    (p q : String) (o : Obligation)
    → str_eq q p ≡ false
    → owed_to p o.owed ≡ true
    → (o' : Obligation) × (struck q (some o) ≡ some o')
      × (o'.event ≡ o.event)
      × (owed_to p o'.owed ≡ true)
unfolding struck
struck-IsOwed p q o other h =
    let left : owed_to p (strike q o.owed) ≡ true = owed_to-strike p q o.owed ∙ rw other h in
    let someone : nobody (strike q o.owed) ≡ false =
      ground (arith, owed_to-nobody p (strike q o.owed)) in
    (record o { owed = strike q o.owed }, rw someone refl, refl, left)

ledger_change-IsOwed :
    (p : String) (e : Event) (c : Change) (l : Ledger)
    → ends e.id p c ≡ false
    → IsOwed p e l
    → IsOwed p e (ledger_change c l)
unfolding ledger_change owe discharge IsOwed
ledger_change-IsOwed p e (appends e' ps) l h (o, at, same, owed) = (o, rw h at, same, owed)
ledger_change-IsOwed p e (acks i q) l h (o, at, same, owed) = elim (str_eq-cases i e.id) [
  | inr (other, f) ↦ (o, rw f at, same, owed)
  | inl (here, t) ↦
      let (o', to, event, left) = struck-IsOwed p q o (ground arith) owed in
      (o', rw (t, here, at) to, event ∙ same, left)
]

ledger_changes-IsOwed :
    (p : String) (e : Event) (cs : List Change) (l : Ledger)
    → NoneEnds e.id p cs
    → IsOwed p e l
    → IsOwed p e (ledger_changes cs l)
ledger_changes-IsOwed p e [] l h o = o
ledger_changes-IsOwed p e (c ∷ cs) l h o =
    ledger_changes-IsOwed p e cs (ledger_change c l) h.1 (ledger_change-IsOwed p e c l h.0 o)

-- An event whose append was answered is owed to each of its providers in the ledger of the history,
-- unless something that ends it was answered later.
pub history-IsOwed :
    {json : Json} {w : Wal} (r : Reach json w) (before after : List Change) (e : Event)
    (ps : List String) (p : String)
    → answered r ≡ before ++ appends e ps ∷ after
    → member p ps ≡ true
    → NoneEnds e.id p after
    → IsOwed p e (history r)
history-IsOwed r before after e ps p trace h quiet =
    let start = ledger_changes before empty_ledger in
    subst (IsOwed p e)
      (sym (
        history-answered r
        ∙ ap (λ cs. ledger_changes cs empty_ledger) trace
        ∙ ledger_changes-append before (appends e ps ∷ after) empty_ledger))
      (ledger_changes-IsOwed p e after (ledger_change (appends e ps) start) quiet
        (append-IsOwed p e ps start h))

-- More answers that do not end it leave it owed.
pub ledger_batch-IsOwed :
    (p : String) (e : Event) (rs : List (Request × Faults)) (answers : List Bool) (l : Ledger)
    → NoneEnds e.id p (map (λ r. r.0.change) rs)
    → IsOwed p e l
    → IsOwed p e (ledger_batch rs answers l)
unfolding ledger_batch
ledger_batch-IsOwed p e [] answers l h o = o
ledger_batch-IsOwed p e (r ∷ rs) [] l h o = o
ledger_batch-IsOwed p e (r ∷ rs) (true ∷ answers) l h o =
    ledger_batch-IsOwed p e rs answers (ledger_change r.0.change l) h.1
      (ledger_change-IsOwed p e r.0.change l h.0 o)
ledger_batch-IsOwed p e (r ∷ rs) (false ∷ answers) l h o =
    ledger_batch-IsOwed p e rs answers l h.1 o

-- An index whose ledger owes the event has it pending.
pub IsOwed-pending :
    (p : String) (e : Event) (index : Map EntryState)
    → IsOwed p e (ledger_of index)
    → (entry : EntryState) × (lookup e.id index ≡ some entry)
      × (entry.event ≡ e)
      × (member p entry.pending ≡ true)
unfolding IsOwed ledger_of set_of owed_to
IsOwed-pending p e index (o, at, same, owed) = elim (Option-cases (lookup e.id index)) [
  | inl absent ↦ absurd (ground (arith, ap obligation_of absent))
  | inr (entry, found) ↦
      let here : some (record { event = entry.event; owed = set_of entry.pending }) ≡ some o =
        sym (ap obligation_of found) ∙ at in
      let event : entry.event ≡ o.event = ap (event_or e) here in
      let owed_here : set_of entry.pending ≡ o.owed = ap owed_or here in
      (entry, found, event ∙ same, ap (owed_to p) owed_here ∙ owed)
]
