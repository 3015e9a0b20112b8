-- ===== src/Pipeline/Handler/Gauges.antt =====
-- The gauges that RunGauges of pipeline.go keeps.
use tallyd.Base.{
  if_both, sym, length-append, ℕ, ◌≡◌, refl, ap, ◌∙◌, inl, inr, String, true, List, [], ◌∷◌, str_eq,
  str_eq-cases, if◌then◌else◌, ℤ, pos, length,
}
use text.Mathlib.TextPositions.{eq_refl}
use tallyd.Wal.Log.{Wal, unacked_count, member}
use tallyd.Dlq.{Dlq, depth, list_regular, list_poison}
use tallyd.Dlq.Life.{Life, Life-exact}
use tallyd.DlqReplay.{listed}
use tallyd.Metrics.{Collectors, set_wal_unacked, set_dlq_depth}
use tallyd.Pipeline.Handler.{refresh_depths, refresh}

-- The Prometheus gauges: a value that is set is there, and other series keep theirs.
record GaugeLaws {M : Type 0} (c : Collectors M) : Type 0 where
  pub unacked_set : (n : ℕ) (m : M) → c.unacked (c.set_unacked n m) ≡ n
  pub unacked_depth : (p : String) (z : ℤ) (m : M) → c.unacked (c.set_dlq_depth p z m) ≡ c.unacked m
  pub depth_set :
      (p q : String) (z : ℤ) (m : M)
      → c.dlq_depth (c.set_dlq_depth p z m) q ≡ (if str_eq p q then z else c.dlq_depth m q)

module _ {M : Type 0} (c : Collectors M) (laws : GaugeLaws c) where
  unacked-refresh_depths :
      (d : Dlq) (names : List String) (m : M) → c.unacked (refresh_depths c d names m) ≡ c.unacked m
  unfolding refresh_depths set_dlq_depth
  unacked-refresh_depths d [] m = refl
  unacked-refresh_depths d (n ∷ names) m =
      unacked-refresh_depths d names _ ∙ laws.unacked_depth n (depth d n) m

  depth-refresh_depths :
      (d : Dlq) (names : List String) (m : M) (q : String)
      → c.dlq_depth (refresh_depths c d names m) q
        ≡ (if member q names then depth d q else c.dlq_depth m q)
  unfolding refresh_depths set_dlq_depth member
  depth-refresh_depths d [] m q = refl
  depth-refresh_depths d (n ∷ names) m q =
      depth-refresh_depths d names _ q
      ∙ rw (laws.depth_set n q (depth d n) m) (elim (str_eq-cases n q) [
        | inl (same, t) ↦ rw (← same) (
            rw (eq_refl n)
              (if_both (λ z. z ≡ depth d n) (member n names) _ _ (λ t. refl) (λ f. refl)))
        | inr (other, f) ↦ rw f refl
      ])

  -- After every refresh, with Prometheus gauges that show what was set last: the gauge of unresolved
  -- entries is their number in the log, and the depth gauge of every provider with a batcher is the
  -- number of records that a replay of the provider with include_poison would take, at any moment
  -- of the queue's life.
  refresh_lem :
      {u v : String → ℕ} {d : Dlq} (w : Wal) (names : List String) (m : M) (q : String)
      → Life u v d
      → u q ≡ 0
      → v q ≡ 0
      → member q names ≡ true
      → let t = refresh c w d names m in
        (c.unacked t ≡ unacked_count w) × (c.dlq_depth t q ≡ pos (length (listed q true d)))
  unfolding refresh set_wal_unacked
  refresh_lem {d = d} w names m q life synced kept there = (
    unacked-refresh_depths d names _ ∙ laws.unacked_set (unacked_count w) m,
    depth-refresh_depths d names _ q
        ∙ rw there (
            Life-exact q life synced kept
            ∙ ap pos (sym (length-append (list_regular q d) (list_poison q d)))),
  )
