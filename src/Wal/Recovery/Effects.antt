-- ===== src/Wal/Recovery/Effects.antt =====
-- The index under one record: in memory (apply), at replay, and on two indexes that agree.
use tallyd.Base.{
  ℕ, ◌≡◌, refl, sym, ap, ◌∙◌, ◌⊎◌, inl, inr, String, Option, none, some, if◌then◌else◌, Map, lookup,
  insert, lookup-insert, lookup-delete, arith, Bool-cases, Option-cases, str_eq, str_eq-cases, ◌==◌,
}
use tallyd.Wal.Record.{DecodedRecord, rec_type_event, rec_type_ack}
use tallyd.Wal.Log.{
  Wal, EntryState, apply_append, apply_ack, incref_segment, decref_segment, release, resolve_entry,
  pending_set, without, is_empty,
}
use tallyd.Wal.Commit.{Json, Change, appends, acks, apply_change, Request}
use tallyd.Wal.Replay.{replayed, failed, replay_event, replay_ack, replay_record, settle}
use tallyd.Wal.Recovery.{JsonLaws, Framed, framed_event, framed_ack, index_change, SameIndex}

-- Memory: the closures of Append and Ack do to the index what the replay of their records does.
index-release : (old : Option EntryState) (w : Wal) → (release old w).index ≡ w.index
unfolding release decref_segment
index-release none w = refl
index-release (some prev) w = refl

index-resolve_entry :
    (id provider : String) (old : Option EntryState) (w : Wal)
    → (resolve_entry id provider old w).index ≡ settle id provider old w.index
unfolding resolve_entry settle
index-resolve_entry id provider none w = refl
index-resolve_entry id provider (some e) w = ground arith

pub index-apply_change :
    (c : Change) (seq : ℕ) (w : Wal) → (apply_change c seq w).index ≡ index_change c seq w.index
unfolding apply_change index_change apply_append apply_ack incref_segment replay_event replay_ack
index-apply_change (appends e ps) seq w =
    ap (insert e.id (record { event = e; pending = pending_set ps; seg_seq = seq }))
      (index-release (lookup e.id w.index) w)
index-apply_change (acks id provider) seq w = index-resolve_entry id provider (lookup id w.index) w

-- The record that a request wrote.
abbrev pub record_of : (json : Json) (r : Request) → Framed json r → DecodedRecord
record_of json r (framed_event e ps payload _ _ _ _) = record {
  rec_type = rec_type_event;
  payload = payload;
}
record_of json r (framed_ack id provider d payload _ _ _ _) = record {
  rec_type = rec_type_ack;
  payload = payload;
}

-- Replay: a record that Append or Ack wrote has the effect of its change.
pub replay_record-Framed :
    (json : Json) (laws : JsonLaws json) (r : Request) (fr : Framed json r) (seq : ℕ)
    → (i : Map EntryState)
    → replay_record json seq (record_of json r fr) i ≡ replayed (index_change r.change seq i)
unfolding replay_record index_change
replay_record-Framed json laws r (framed_event e ps payload c m fits f) seq i =
    rw (c, laws.event_back e ps payload m)
replay_record-Framed json laws r (framed_ack id provider d payload c m fits f) seq i =
    rw (c, laws.ack_back id provider d payload m)

abbrev pub optional_change : Option Change → ℕ → Map EntryState → Map EntryState
optional_change none seq i = i
optional_change (some c) seq i = index_change c seq i

-- A record stops the replay, or is a change or nothing, whatever the index is.
pub replay_record-cases :
    (json : Json) (seq : ℕ) (rec : DecodedRecord)
    → ((i : Map EntryState) → replay_record json seq rec i ≡ failed)
      ⊎ ((c : Option Change) × ((i : Map EntryState)
            → replay_record json seq rec i ≡ replayed (optional_change c seq i)))
unfolding replay_record index_change
replay_record-cases json seq rec = elim (Bool-cases (rec.rec_type == rec_type_event)) [
  | inl event ↦ elim (Option-cases (json.unmarshal_event rec.payload)) [
    | inl e ↦ inl (λ i. rw (event, e))
    | inr ((ev, ps), e) ↦ inr (some (appends ev ps), λ i. rw (event, e))
  ]
  | inr other ↦ elim (Bool-cases (rec.rec_type == rec_type_ack)) [
    | inl ack ↦ elim (Option-cases (json.unmarshal_ack rec.payload)) [
      | inl e ↦ inl (λ i. rw (other, ack, e))
      | inr ((id, p), e) ↦ inr (some (acks id p), λ i. rw (other, ack, e))
    ]
    | inr none_of_both ↦ inr (none, λ i. rw (other, none_of_both))
  ]
]

-- What the index holds after a record, key by key.
abbrev pub settled : String → Option EntryState → Option EntryState
settled provider none = none
settled provider (some e) =
    let pending = without provider e.pending in
    if is_empty pending then none else some (record e { pending = pending })

lookup-settle :
    (id provider : String) (old : Option EntryState) (i : Map EntryState) (k : String)
    → lookup id i ≡ old
    → lookup k (settle id provider old i)
      ≡ (if str_eq id k then settled provider old else lookup k i)
unfolding settle
lookup-settle id provider none i k e = elim (str_eq-cases id k) [
  | inl (same, t) ↦ rw (t, ← same) e
  | inr (other, f) ↦ rw f
]
lookup-settle id provider (some old) i k e =
    elim (Bool-cases (is_empty (without provider old.pending))) [
      | inl last ↦ rw last (lookup-delete id k i)
      | inr more ↦ rw more (lookup-insert id k _ i)
    ]

abbrev pub changed : Change → ℕ → String → Option EntryState → Option EntryState → Option EntryState
changed (appends e ps) seq k at_id at_k =
    if str_eq e.id k
    then some (record { event = e; pending = pending_set ps; seg_seq = seq })
    else at_k
changed (acks id provider) seq k at_id at_k = if str_eq id k then settled provider at_id else at_k

abbrev pub id_of : Change → String
id_of (appends e ps) = e.id
id_of (acks id provider) = id

pub lookup-index_change :
    (c : Change) (seq : ℕ) (i : Map EntryState) (k : String)
    → lookup k (index_change c seq i) ≡ changed c seq k (lookup (id_of c) i) (lookup k i)
unfolding index_change replay_event replay_ack
lookup-index_change (appends e ps) seq i k = lookup-insert e.id k _ i
lookup-index_change (acks id provider) seq i k = lookup-settle id provider (lookup id i) i k refl

-- Indexes that agree stay so.
pub index_change-SameIndex :
    (c : Change) (seq : ℕ) (i j : Map EntryState)
    → SameIndex i j
    → SameIndex (index_change c seq i) (index_change c seq j)
index_change-SameIndex c seq i j same k =
    rw (lookup-index_change c seq i k, lookup-index_change c seq j k, same (id_of c), same k)

-- Every entry of the index came from segment `seq`.
abbrev pub AllFrom : ℕ → Map EntryState → Type 0
AllFrom seq i = (k : String) (e : EntryState) → lookup k i ≡ some e → e.seg_seq ≡ seq

-- At one key the second index lacks at most an entry of the segment `old`.
abbrev pub StaleAt : ℕ → Option EntryState → Option EntryState → Type 0
StaleAt old x y = (x ≡ y) ⊎ ((y ≡ none) × ((e : EntryState) → x ≡ some e → e.seg_seq ≡ old))

abbrev pub Stale : ℕ → Map EntryState → Map EntryState → Type 0
Stale old i j = (k : String) → StaleAt old (lookup k i) (lookup k j)

settled-seg_seq :
    (provider : String) (seq : ℕ) (old : Option EntryState)
    → ((e : EntryState) → old ≡ some e → e.seg_seq ≡ seq)
    → (e : EntryState) → settled provider old ≡ some e
    → e.seg_seq ≡ seq
settled-seg_seq provider seq none h e p = ground arith
settled-seg_seq provider seq (some old) h e p = ground (arith, h old refl)

pub index_change-AllFrom :
    (c : Change) (seq : ℕ) (i : Map EntryState) → AllFrom seq i → AllFrom seq (index_change c seq i)
index_change-AllFrom (appends ev ps) seq i h k e p =
    let q = sym (lookup-index_change (appends ev ps) seq i k) ∙ p in ground (arith, h k e)
index_change-AllFrom (acks id provider) seq i h k e p =
    let q = sym (lookup-index_change (acks id provider) seq i k) ∙ p in
    ground (arith, h k e, settled-seg_seq provider seq (lookup id i) (h id) e)

settled-StaleAt :
    (provider : String) (old : ℕ) (x y : Option EntryState)
    → StaleAt old x y
    → StaleAt old (settled provider x) (settled provider y)
settled-StaleAt provider old x y (inl same) = inl (ap (settled provider) same)
settled-StaleAt provider old x y (inr (gone, from)) =
    inr (ap (settled provider) gone, settled-seg_seq provider old x from)

changed-StaleAt :
    (c : Change) (seq old : ℕ) (k : String) (a b x y : Option EntryState)
    → StaleAt old a b
    → StaleAt old x y
    → StaleAt old (changed c seq k a x) (changed c seq k b y)
changed-StaleAt (appends ev ps) seq old k a b x y h g = elim (Bool-cases (str_eq ev.id k)) [
  | inl hit ↦ rw hit (inl refl)
  | inr miss ↦ rw miss g
]
changed-StaleAt (acks id provider) seq old k a b x y h g = elim (Bool-cases (str_eq id k)) [
  | inl hit ↦ rw hit (settled-StaleAt provider old a b h)
  | inr miss ↦ rw miss g
]

-- The stale entries of an old segment stay the only difference.
pub index_change-Stale :
    (c : Change) (seq old : ℕ) (i j : Map EntryState)
    → Stale old i j
    → Stale old (index_change c seq i) (index_change c seq j)
index_change-Stale c seq old i j h k =
    rw (lookup-index_change c seq i k, lookup-index_change c seq j k)
      (changed-StaleAt c seq old k (lookup (id_of c) i) (lookup (id_of c) j) (lookup k i)
        (lookup k j) (h (id_of c)) (h k))
