-- ===== src/Wal/Writer/Batch.antt =====
-- commitBatch of wal.go answers each request of its batch.
use tallyd.Base.{
  ℕ, suc, ◌+◌, ◌≡◌, refl, ap, ◌∙◌, inl, inr, Bool, List, [], ◌∷◌, map, length, length_snoc, arith,
  Bool-cases, ltb,
}
use tallyd.Wal.Log.{Wal}
use tallyd.Wal.Commit.{
  Request, Faults, Outcome, Writing, active_size, rotate, mark_synced, write_active, write_request,
  write_requests, write_batch, apply_requests, commit_batch,
}
use tallyd.Wal.Writer.{Job, answers}

length-map {ℓ κ} :
    {A : Type ℓ} {B : Type κ} (f : A → B) (xs : List A) → length (map f xs) ≡ length xs
length-map f [] = refl
length-map f (x ∷ xs) = ap suc (length-map f xs)

-- commitBatch answers each request of its batch.
length-write_request :
    (limit : ℕ) (r : Request) (faults : Faults) (st : Writing)
    → length (write_request limit (r, faults) st).outcomes ≡ suc (length st.outcomes)
unfolding write_request write_active rotate
length-write_request limit r faults st =
    elim (Bool-cases (ltb limit (active_size st.segments + length r.frame))) [
      | inr fits ↦ rw fits (length_snoc st.outcomes _)
      | inl over ↦ elim (Bool-cases faults.rotate_fails) [
        | inl refused ↦ rw (over, refused) (length_snoc st.outcomes _)
        | inr rotated ↦
            rw (over, rotated)
              (length_snoc (map mark_synced st.outcomes) _
                ∙ ap suc (length-map mark_synced st.outcomes))
      ]
    ]

length-write_requests :
    (limit : ℕ) (rs : List Job) (st : Writing)
    → length (write_requests limit rs st).outcomes ≡ length rs + length st.outcomes
unfolding write_requests
length-write_requests limit [] st = omega arith
length-write_requests limit ((r, faults) ∷ rs) st = omega (
  arith,
  length-write_requests limit rs (write_request limit (r, faults) st),
  length-write_request limit r faults st,
)

answers-apply_requests :
    (sync_ok : Bool) (rs : List Job) (os : List Outcome) (w : Wal)
    → length os ≡ length rs
    → map (λ (x : Job × Bool). x.0) (answers rs (apply_requests sync_ok rs os w).1) ≡ rs
unfolding answers apply_requests
answers-apply_requests sync_ok [] os w h = refl
answers-apply_requests sync_ok (r ∷ rs) [] w h = absurd (omega arith)
answers-apply_requests sync_ok ((req, faults) ∷ rs) (o ∷ os) w h =
    ap (λ l. (req, faults) ∷ l) (answers-apply_requests sync_ok rs os _ (omega arith))

pub answers-commit_batch :
    (batch : List Job) (sync_ok : Bool) (w : Wal)
    → map (λ (x : Job × Bool). x.0) (answers batch (commit_batch batch sync_ok w).1) ≡ batch
unfolding commit_batch write_batch
answers-commit_batch batch sync_ok w =
    answers-apply_requests sync_ok batch (write_batch batch w).outcomes _ (
      omega (
        arith,
        length-write_requests w.max_segment_bytes batch
            (record { segments = w.segments; next_seq = w.next_seq; outcomes = [] }),
      ))
