-- ===== src/Wal/Invariant.antt =====
-- The invariant of the log's state (wal.go), and that the changes of Append and Ack keep it.
use tallyd.Base.{
  ℕ, ◌≡◌, refl, ◌∙◌, inl, inr, true, Option, none, some, List, [], ◌∷◌, String, ℤ, inc_ℤ, dec_ℤ,
  Map, lookup, insert, delete, Unique, arith, Bool-cases, delete-Unique, insert-Unique,
}
use tallyd.Adapter.{Event}
use tallyd.Wal.Log.{
  Wal, Segment, EntryState, adjust, apply_append, apply_ack, incref_segment, decref_segment,
  release, resolve_entry, without, is_empty,
}
use tallyd.Wal.Replay.{seg_ref_count}
use tallyd.Wal.Counting.{
  Ascending, Counted, AllHomed, has, adjust-Ascending, has-adjust, Counted-ext, Counted-inc,
  Counted-dec, seg_ref_count-delete, seg_ref_count-insert, delete-AllHomed, lookup-AllHomed,
  AllHomed-mono,
}

abbrev pub IsNonempty : List Segment → Type 0
IsNonempty [] = ⊥
IsNonempty (s ∷ ss) = Unit {0}

-- The state between two batches: one entry to an event id, segments numbered upwards below the next
-- number, each segment counting exactly the unresolved entries that live in it, and no entry without
-- its segment.
pub record IsValid (w : Wal) : Type 0 where
  pub unique : Unique w.index
  pub nonempty : IsNonempty w.segments
  pub ascending : Ascending 0 w.segments w.next_seq
  pub counted : Counted (λ n. seg_ref_count n w.index) w.segments
  pub homed : AllHomed w.segments w.index

adjust-IsNonempty :
    (f : ℤ → ℤ) (seq : ℕ) (ss : List Segment) → IsNonempty ss → IsNonempty (adjust f seq ss)
unfolding adjust
adjust-IsNonempty f seq [] h = h
adjust-IsNonempty f seq (s ∷ ss) h = ground arith

-- The home of each entry stays when only counts change.
homed_after :
    (f : ℤ → ℤ) (seq : ℕ) (ss : List Segment) (m : Map EntryState)
    → AllHomed ss m
    → AllHomed (adjust f seq ss) m
homed_after f seq ss m h = AllHomed-mono ss (adjust f seq ss) m (λ n p. has-adjust f seq n ss ∙ p) h

module _ (w : Wal) (v : IsValid w) where
  -- One entry replaced by, or added as, an entry of the segment `entry.seg_seq`.
  replaced :
      (id : String) (entry : EntryState)
      → has entry.seg_seq w.segments ≡ true
      → (old : Option EntryState) → lookup id w.index ≡ old
      → IsValid (
          incref_segment entry.seg_seq
            (record (release old w) { index = insert id entry (release old w).index }))
  unfolding release incref_segment decref_segment insert
  replaced id entry home none e = record {
    unique = insert-Unique id entry w.index v.unique;
    nonempty = adjust-IsNonempty _ _ w.segments v.nonempty;
    ascending = adjust-Ascending inc_ℤ entry.seg_seq 0 w.next_seq w.segments v.ascending;
    counted =
        Counted-inc _ _ entry.seg_seq 0 w.next_seq w.segments v.ascending
          (λ n. ground (
            arith,
            seg_ref_count-delete n id w.index v.unique,
            seg_ref_count-insert n id entry w.index,
          ))
          v.counted;
    homed =
        homed_after inc_ℤ entry.seg_seq w.segments ((id, entry) ∷ delete id w.index)
          (home, delete-AllHomed w.segments id w.index v.homed);
  }
  replaced id entry home (some prev) e =
      let freed = adjust dec_ℤ prev.seg_seq w.segments in
      let ascending = adjust-Ascending dec_ℤ prev.seg_seq 0 w.next_seq w.segments v.ascending in
      record {
        unique = insert-Unique id entry w.index v.unique;
        nonempty = adjust-IsNonempty _ _ freed (adjust-IsNonempty _ _ w.segments v.nonempty);
        ascending = adjust-Ascending inc_ℤ entry.seg_seq 0 w.next_seq freed ascending;
        counted =
            Counted-inc (λ n. seg_ref_count n (delete id w.index)) _ entry.seg_seq 0 w.next_seq
              freed ascending (λ n. ground (arith, seg_ref_count-insert n id entry w.index))
              (Counted-dec (λ n. seg_ref_count n w.index) _ prev.seg_seq 0 w.next_seq w.segments
                v.ascending (λ n. ground (arith, seg_ref_count-delete n id w.index v.unique))
                v.counted);
        homed = homed_after inc_ℤ entry.seg_seq freed ((id, entry) ∷ delete id w.index) (
            homed_after dec_ℤ prev.seg_seq w.segments ((id, entry) ∷ delete id w.index)
              (home, delete-AllHomed w.segments id w.index v.homed));
      }

  pub apply_append-IsValid :
      (event : Event) (providers : List String) (seg_seq : ℕ)
      → has seg_seq w.segments ≡ true
      → IsValid (apply_append event providers seg_seq w)
  unfolding apply_append
  apply_append-IsValid event providers seg_seq home = replaced event.id _ home _ refl

  resolved :
      (id provider : String) (old : Option EntryState)
      → lookup id w.index ≡ old
      → IsValid (resolve_entry id provider old w)
  unfolding resolve_entry insert
  resolved id provider none e = v
  resolved id provider (some entry) e =
      elim (Bool-cases (is_empty (without provider entry.pending))) [
        | inl last ↦ rw last record {
          unique = delete-Unique id w.index v.unique;
          nonempty = adjust-IsNonempty _ _ w.segments v.nonempty;
          ascending = adjust-Ascending dec_ℤ entry.seg_seq 0 w.next_seq w.segments v.ascending;
          counted =
              Counted-dec (λ n. seg_ref_count n w.index) _ entry.seg_seq 0 w.next_seq w.segments
                v.ascending (λ n. ground (arith, seg_ref_count-delete n id w.index v.unique))
                v.counted;
          homed =
              homed_after dec_ℤ entry.seg_seq w.segments _
                (delete-AllHomed w.segments id w.index v.homed);
        }
        | inr more ↦ rw more record {
          unique =
              insert-Unique id (record entry { pending = without provider entry.pending }) w.index
                v.unique;
          nonempty = v.nonempty;
          ascending = v.ascending;
          counted =
              Counted-ext (λ n. seg_ref_count n w.index) _ 0 w.next_seq w.segments v.ascending
                (λ n h. ground (
                  arith,
                  seg_ref_count-delete n id w.index v.unique,
                  seg_ref_count-insert n id
                      (record entry { pending = without provider entry.pending }) w.index,
                ))
                v.counted;
          homed = (
            lookup-AllHomed w.segments id entry w.index v.homed e,
            delete-AllHomed w.segments id w.index v.homed,
          );
        }
      ]

  pub apply_ack-IsValid : (id provider : String) → IsValid (apply_ack id provider w)
  unfolding apply_ack
  apply_ack-IsValid id provider = resolved id provider _ refl
