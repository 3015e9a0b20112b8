-- ===== src/Pipeline/Custody/Owed.antt =====
-- What the log owes to one provider, and how a commit and the acks of a flush change that.
pub mod Commits
use tallyd.Base.{
  ℕ, zero, suc, ◌+◌, ◌<◌, ◌≡◌, ◌⊎◌, refl, sym, ap, ◌∙◌, subst, inl, inr, String, Bool, true, false,
  not, ◌&&◌, ◌||◌, Option, none, some, List, [], ◌∷◌, ◌++◌, str_eq, str_eq-cases, eq_iff,
  if◌then◌else◌, Map, lookup, arith, Bool-cases,
}
use tallyd.Adapter.{Event, Disposition}
use tallyd.Wal.Log.{Wal, EntryState, member, without, is_empty, pending_set, gc_segments}
use tallyd.Wal.Commit.{
  Json, Change, appends, Request, Faults, Outcome, Prepared, submitted, rejected, prepare_ack,
  ack_request, apply_change, apply_requests, succeeds, write_batch, commit_batch,
}
use tallyd.Wal.Recovery.{index_change}
use tallyd.Wal.Recovery.Effects.{settled, changed, lookup-index_change, index-apply_change}
use tallyd.Wal.Ledger.Sets.{
  empty-member, member-without, pending_set-SameMembers, is_empty-SameMembers,
}
use tallyd.Dispatcher.{Enqueued, dispatch}
use tallyd.Dispatcher.Routing.{AllKnown}
use tallyd.Pipeline.Custody.{
  events_for, dispatched_change, dispatched, Routed, RoutedChange, commit_ack, first_answer,
  ack_log,
}

abbrev pub owed_in : String → Option EntryState → Bool
owed_in name none = false
owed_in name (some e) = member name e.pending

-- Whether the event with the id `k` is pending for the provider.
abbrev pub owes : String → String → Map EntryState → Bool
owes name k index = owed_in name (lookup k index)

-- How many of some events have this id.
abbrev pub count : String → List Event → ℕ
count k [] = 0
count k (e ∷ es) = (if str_eq e.id k then 1 else 0) + count k es

pub count-append : (k : String) (xs ys : List Event) → count k (xs ++ ys) ≡ count k xs + count k ys
count-append k [] ys = omega arith
count-append k (x ∷ xs) ys = omega (arith, count-append k xs ys)

pub events_for-append :
    (name : String) (xs ys : Enqueued)
    → events_for name (xs ++ ys) ≡ events_for name xs ++ events_for name ys
unfolding events_for
events_for-append name [] ys = refl
events_for-append name ((p, e) ∷ xs) ys = ground (arith, events_for-append name xs ys)

owed_in-settled :
    (name p : String) (old : Option EntryState)
    → owed_in name (settled p old) ≡ (if str_eq p name then false else owed_in name old)
owed_in-settled name p none = ground arith
owed_in-settled name p (some e) = elim (Bool-cases (is_empty (without p e.pending))) [
  | inl last ↦
      rw last (sym (empty-member name (without p e.pending) last) ∙ member-without name p e.pending)
  | inr more ↦ rw more (member-without name p e.pending)
]

-- An ack takes its event from its provider, and adds nothing.
pub owes-ack :
    (name k id p : String) (seq : ℕ) (i : Map EntryState)
    → owes name k (index_change (Change.acks id p) seq i)
      ≡ (if str_eq id k && str_eq p name then false else owes name k i)
owes-ack name k id p seq i =
    ap (owed_in name) (lookup-index_change (Change.acks id p) seq i k) ∙ elim (str_eq-cases id k) [
      | inl (same, t) ↦ rw (t, ← same) (owed_in-settled name p (lookup id i))
      | inr (other, f) ↦ rw f refl
    ]

-- An append owes its event to exactly its providers.
owes-append :
    (name k : String) (e : Event) (ps : List String) (seq : ℕ) (i : Map EntryState)
    → owes name k (index_change (appends e ps) seq i)
      ≡ (if str_eq e.id k then member name ps else owes name k i)
owes-append name k e ps seq i =
    ap (owed_in name) (lookup-index_change (appends e ps) seq i k)
    ∙ elim (Bool-cases (str_eq e.id k)) [
      | inl hit ↦ rw hit (pending_set-SameMembers ps name)
      | inr miss ↦ rw miss refl
    ]

-- Dispatch reaches every provider of a list that is configured throughout.
dispatch-reaches :
    (known : String → Bool) (name k : String) (e : Event) (ps : List String)
    → AllKnown known ps
    → member name ps ≡ true
    → str_eq e.id k ≡ true
    → 0 < count k (events_for name (dispatch known e ps).0)
unfolding dispatch events_for member
dispatch-reaches known name k e [] all m hit = absurd (ground arith)
dispatch-reaches known name k e (p ∷ ps) all m hit = elim (Bool-cases (str_eq p name)) [
  | inl here ↦ rw (all.0, here, hit) (omega arith)
  | inr other ↦ rw (all.0, other) (dispatch-reaches known name k e ps all.1 (ground arith) hit)
]

-- One change that is answered with nil: what is owed after it was owed before, or is dispatched.
owes-change :
    (known : String → Bool) (name k : String) (c : Change) (seq : ℕ) (i : Map EntryState)
    → RoutedChange known c
    → owes name k (index_change c seq i) ≡ true
    → (owes name k i ≡ true) ⊎ (0 < count k (events_for name (dispatched_change known c true)))
unfolding dispatched_change
owes-change known name k (Change.acks id p) seq i routed h =
    let same = owes-ack name k id p seq i in inl (ground arith)
owes-change known name k (appends e ps) seq i routed h =
    let same = owes-append name k e ps seq i in
    elim (Bool-cases (str_eq e.id k)) [
      | inl hit ↦ inr (dispatch-reaches known name k e ps routed (ground arith) hit)
      | inr miss ↦ inl (ground arith)
    ]
