-- ===== src/Wal/Resubmission.antt =====
-- An append of an event that is still unresolved (the apply closures of Append and Ack in wal.go).
use text.Mathlib.TextPositions.{eq_refl}
use tallyd.Base.{
  ℕ, ◌≡◌, String, true, false, none, some, List, [], ◌∷◌, str_eq, lookup, lookup-insert,
  lookup-delete, arith,
}
use tallyd.Adapter.{Event}
use tallyd.Wal.Log.{
  Wal, EntryState, member, without, pending_set, apply_append, apply_ack, resolve_entry, release,
  incref_segment, decref_segment, is_empty,
}

entry_of : Event → List String → ℕ → EntryState
entry_of e ps seq = record { event = e; pending = pending_set ps; seg_seq = seq }

index-apply_append :
    (e : Event) (ps : List String) (seq : ℕ) (w : Wal)
    → lookup e.id (apply_append e ps seq w).index ≡ some (entry_of e ps seq)
unfolding apply_append release incref_segment decref_segment entry_of
index-apply_append e ps seq w = simp (lookup-insert, eq_refl)

-- The last provider's ack takes the entry out of the index.
resolve_last :
    (id p : String) (e : Event) (seq : ℕ) (w : Wal)
    → lookup id (resolve_entry id p (some (entry_of e (p ∷ []) seq)) w).index ≡ none
unfolding resolve_entry entry_of pending_set member without is_empty decref_segment
resolve_last id p e seq w = simp (eq_refl, lookup-delete)

pending-member : (p q : String) → str_eq p q ≡ false → member q (pending_set (p ∷ [])) ≡ false
unfolding pending_set member
pending-member p q h = ground arith

-- An append does not add to the providers of an unresolved event but replaces them. If an event is
-- pending for a provider and is appended again for another one only, as the replay of a dead letter
-- does, then the entry no longer names the first, and the ack of the second takes the event out of
-- the index.
pub append_forgets_pending :
    (w : Wal) (e : Event) (p q : String) (seq : ℕ) (old : EntryState)
    → lookup e.id w.index ≡ some old
    → member q old.pending ≡ true
    → str_eq p q ≡ false
    → let w' = apply_append e (p ∷ []) seq w in
      ((entry : EntryState) × (lookup e.id w'.index ≡ some entry)
        × (member q entry.pending ≡ false))
      × (lookup e.id (apply_ack e.id p w').index ≡ none)
unfolding apply_ack entry_of
append_forgets_pending w e p q seq old held pending other =
    let found = index-apply_append e (p ∷ []) seq w in
    (
      (entry_of e (p ∷ []) seq, found, pending-member p q other),
      rw found (resolve_last e.id p e seq (apply_append e (p ∷ []) seq w)),
    )
