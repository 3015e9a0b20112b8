-- ===== src/Pipeline/Custody/Keys.antt =====
-- Open of internal/wal/wal.go: the index that it builds has each event under its own id, so that
-- ReplayPending puts every event that is owed to a provider on its queue.
use tallyd.Base.{
  if_both, ℕ, ◌<◌, ◌≡◌, refl, sym, ap, ◌∙◌, subst, inl, inr, String, Bool, true, Option, none, some,
  List, [], ◌∷◌, Map, lookup, str_eq, eq_iff, arith, Option-cases,
}
use tallyd.Adapter.{Event}
use tallyd.Wal.Log.{Wal, EntryState, pending_entries, member}
use tallyd.Wal.Commit.{Json, Change, appends, acks}
use tallyd.Wal.Replay.{File, replayed, open_wal}
use tallyd.Wal.Recovery.{index_change}
use tallyd.Wal.Recovery.Effects.{settled, lookup-index_change}
use tallyd.Wal.Recovery.Opening.{open_wal-index}
use tallyd.Wal.Recovery.Replaying.{AllFiles, files_keep}
use tallyd.Wal.Recovery.Crash.{index-finish_open}
use tallyd.Dispatcher.{Enqueued, replay_pending}
use tallyd.Dispatcher.Startup.{Enqueues, replay_pending-Enqueues}
use tallyd.Pipeline.Custody.{events_for}
use tallyd.Pipeline.Custody.Owed.{owes, owed_in, count}

abbrev IsKeyed : Map EntryState → Type 0
IsKeyed i = (k : String) (e : EntryState) → lookup k i ≡ some e → e.event.id ≡ k

settled-event :
    (provider k : String) (old : Option EntryState)
    → ((e : EntryState) → old ≡ some e → e.event.id ≡ k)
    → (e : EntryState) → settled provider old ≡ some e
    → e.event.id ≡ k
settled-event provider k none h e p = absurd (ground arith)
settled-event provider k (some old) h e p = ground (arith, h old refl)

index_change-IsKeyed :
    (c : Change) (seq : ℕ) (i : Map EntryState) → IsKeyed i → IsKeyed (index_change c seq i)
index_change-IsKeyed (appends ev ps) seq i h k e p =
    let q = sym (lookup-index_change (appends ev ps) seq i k) ∙ p in
    ground (arith, h k e, eq_iff ev.id k)
index_change-IsKeyed (acks id provider) seq i h k e p =
    let q = sym (lookup-index_change (acks id provider) seq i k) ∙ p in
    ground (arith, h k e, eq_iff id k, settled-event provider id (lookup id i) (h id) e)

no_condition : (fs : List File) → AllFiles (λ n. Unit {0}) fs
no_condition [] = tt
no_condition (f ∷ fs) = (tt, no_condition fs)

nothing-IsKeyed : IsKeyed []
unfolding lookup
nothing-IsKeyed k e p = absurd (ground arith)

open_wal-IsKeyed :
    (json : Json) (ms mb : ℕ) (fs : List File) (w : Wal)
    → open_wal json ms mb fs ≡ replayed w
    → IsKeyed w.index
open_wal-IsKeyed json ms mb fs w e =
    let (j, e₁, e₂) = open_wal-index json ms mb fs w e in
    subst IsKeyed (sym (ap (λ (v : Wal). v.index) e₂ ∙ index-finish_open ms mb j _ _)) (
      files_keep json IsKeyed (λ n. Unit {0}) (λ seq c i any. index_change-IsKeyed c seq i) fs [] j
        (no_condition fs) nothing-IsKeyed e₁)

Enqueues-count :
    (name k : String) (calls : Enqueued) (e : Event)
    → Enqueues calls name e
    → str_eq e.id k ≡ true
    → 0 < count k (events_for name calls)
unfolding events_for
Enqueues-count name k [] e h same = absurd h
Enqueues-count name k ((p, e') ∷ calls) e (inl here) same =
    let right : name ≡ p = ap (λ (x : String × Event). x.0) here in
    let event : e ≡ e' = ap (λ (x : String × Event). x.1) here in
    rw ((eq_iff p name).1 (sym right), ← event, same) (omega arith)
Enqueues-count name k ((p, e') ∷ calls) e (inr there) same =
    let rest = Enqueues-count name k calls e there same in
    if_both (λ l. 0 < count k l) (str_eq p name) _ _ (λ t. omega (arith, rest)) (λ f. rest)

-- What Open finds owed is enqueued by ReplayPending.
pub open_wal-enqueues :
    (json : Json) (known : String → Bool) (name k : String) (ms mb : ℕ) (fs : List File) (w : Wal)
    → known name ≡ true
    → open_wal json ms mb fs ≡ replayed w
    → owes name k w.index ≡ true
    → 0 < count k (events_for name (replay_pending known (pending_entries w)))
unfolding pending_entries
open_wal-enqueues json known name k ms mb fs w configured opens h =
    elim (Option-cases (lookup k w.index)) [
      | inl absent ↦ absurd (ground (arith, ap (owed_in name) absent))
      | inr (e, found) ↦
          let pending : member name e.pending ≡ true = ap (owed_in name) (sym found) ∙ h in
          Enqueues-count name k _ e.event
            (replay_pending-Enqueues known w.index k e name found pending configured)
            ((eq_iff e.event.id k).1 (open_wal-IsKeyed json ms mb fs w opens k e found))
    ]
