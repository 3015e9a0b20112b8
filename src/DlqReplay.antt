-- ===== src/DlqReplay.antt =====
-- internal/dlqreplay/dlqreplay.go: the handler that puts dead letters back into the pipeline. The
-- request is its method, its provider and its include_poison parameter, and the reply a status or the
-- two lists of the JSON body.
pub mod Files
pub mod Safety
use tallyd.Base.{
  ℕ, String, Bool, true, false, ◌&&◌, Option, none, some, List, [], ◌∷◌, ◌++◌, str_eq,
  if◌then◌else◌,
}
use tallyd.Receiver.{Sink}
use tallyd.Dlq.{DeadLetter, Dlq, RemoveFault, list_regular, list_poison, remove}

-- How the store fails: List, ListPoison, and the two rewrites of Remove.
pub record StoreFaults : Type 0 where
  pub list_fails : Bool
  pub list_poison_fails : Bool
  pub regular_fault : RemoveFault
  pub poison_fault : RemoveFault

pub data Reply : Type 0 where
  refuses : ℕ → Reply
  replies : List String → List String → Reply

-- What one append adds to the two lists.
abbrev pub sorted_by :
    String → Option String → List String × List String → List String × List String
sorted_by id none (replayed, failed) = (id ∷ replayed, failed)
sorted_by id (some cause) (replayed, failed) = (replayed, id ∷ failed)

-- The records of a request.
abbrev pub listed : String → Bool → Dlq → List DeadLetter
listed provider include_poison d =
    if include_poison
    then list_regular provider d ++ list_poison provider d
    else list_regular provider d

module _ {S : Type 0} (sink : Sink S) (provider : String) where
  -- The loop over the records, which goes on at an error.
  unfoldable pub replay_records : List DeadLetter → S → S × (List String × List String)
  replay_records [] s = (s, ([], []))
  replay_records (r ∷ rs) s =
      let (u, failure) = sink r.event (provider ∷ []) s in
      let (t, lists) = replay_records rs u in (t, sorted_by r.event.id failure lists)

  -- `if len(result.Replayed) > 0`, and the reply.
  unfoldable pub finish : StoreFaults → S → List String × List String → Dlq → (S × Dlq) × Reply
  finish faults s ([], failed) d = ((s, d), replies [] failed)
  finish faults s (id ∷ replayed, failed) d =
      let (d', fine) = remove faults.regular_fault faults.poison_fault provider (id ∷ replayed) d in
      ((s, d'), if fine then replies (id ∷ replayed) failed else refuses 500)

  unfoldable pub replay_listed : StoreFaults → Bool → S → Dlq → (S × Dlq) × Reply
  unfolding finish
  replay_listed faults include_poison s d =
      let (t, lists) = replay_records (listed provider include_poison d) s in
      finish faults t lists d

  -- ServeHTTP
  unfoldable pub serve : (String → Bool) → StoreFaults → Bool → Bool → S → Dlq → (S × Dlq) × Reply
  unfolding replay_listed
  serve known faults is_post include_poison s d =
      if is_post
      then (if str_eq provider ""
          then ((s, d), refuses 400)
          else if known provider
          then (if faults.list_fails
              then ((s, d), refuses 500)
              else if include_poison && faults.list_poison_fails
              then ((s, d), refuses 500)
              else replay_listed faults include_poison s d)
          else ((s, d), refuses 400))
      else ((s, d), refuses 405)
