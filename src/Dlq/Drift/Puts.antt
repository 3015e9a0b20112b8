-- ===== src/Dlq/Drift/Puts.antt =====
-- Put of dlq.go under any faults: how far the depth drifts.
use tallyd.Base.{
  ℕ, suc, ◌+◌, ◌-◌, ◌≡◌, refl, subst, inl, inr, String, Bool, true, false, Option, none, some, List,
  [], ◌∷◌, ◌++◌, ℤ, inc_ℤ, sub_ℤ, insert, lookup-insert, length, length_snoc, leb, arith,
  Bool-cases,
}
use text.Mathlib.TextPositions.{eq_refl}
use tallyd.Adapter.{Event}
use tallyd.Dlq.{
  DeadLetter, Dlq, depth, list_regular, list_poison, remove_from_file, AppendFault, appended_fine,
  nothing_written, sync_failed, append_record, PutFaults, count_append, append_regular,
  append_poison, put_poisoned, put, threshold_of, attempts_of, set_attempts,
}
use tallyd.Dlq.Drift.{
  IsNear-inc, IsNear-sub, IsNear-drift, Wrote-trans, Wrote-IsWithin, remove_from_file-Sized,
  rewritten-Wrote, half_rewritten-Wrote, IsNear-more, failed-IsWithin, IsNear, size_of, add,
  IsWithin, unsynced_by, uncounted_by, Sized, Wrote,
}

-- One append.
abbrev counted : Bool → ℤ → ℤ
counted true z = inc_ℤ z
counted false z = z

append_record-IsNear :
    (fault : AppendFault) (rec : DeadLetter) (rs : List DeadLetter) (z : ℤ) (m u v : ℕ)
    → IsNear z (length rs + m) u v
    → IsNear
        (counted (append_record fault rec rs).1 z)
        (length (append_record fault rec rs).0 + m)
        (u + unsynced_by fault)
        v
unfolding append_record
append_record-IsNear appended_fine rec rs z m u v h =
    subst (λ n. IsNear (inc_ℤ z) n (u + 0) v) (omega (arith, length_snoc rs rec))
      (subst (λ k. IsNear (inc_ℤ z) (suc (length rs + m)) k v) (omega arith)
        (IsNear-inc z (length rs + m) u v h))
append_record-IsNear nothing_written rec rs z m u v h =
    subst (λ k. IsNear z (length rs + m) k v) (omega arith) h
append_record-IsNear sync_failed rec rs z m u v h =
    subst (λ k. IsNear z (length (rs ++ rec ∷ []) + m) (u + 1) k) (omega arith)
      (IsNear-drift z (length rs + m) _ u v 1 0 (omega (arith, length_snoc rs rec))
        (omega (arith, length_snoc rs rec)) h)

append_regular-Wrote :
    (fault : AppendFault) (provider : String) (rec : DeadLetter) (d : Dlq)
    → let (rs, done) = append_record fault rec (list_regular provider d) in
      Wrote provider rs
        (list_poison provider d)
        (counted done (depth d provider))
        d
        (append_regular fault provider rec d).0
unfolding append_regular append_record count_append depth list_regular list_poison
append_regular-Wrote appended_fine provider rec d = record {
  others = λ q f. simp (lookup-insert, f) (refl, refl, refl);
  own = simp (lookup-insert, eq_refl) (refl, refl, refl);
}
append_regular-Wrote nothing_written provider rec d = record {
  others = λ q f. simp (lookup-insert, f) (refl, refl, refl);
  own = simp (lookup-insert, eq_refl) (refl, refl, refl);
}
append_regular-Wrote sync_failed provider rec d = record {
  others = λ q f. simp (lookup-insert, f) (refl, refl, refl);
  own = simp (lookup-insert, eq_refl) (refl, refl, refl);
}

append_poison-Wrote :
    (fault : AppendFault) (provider : String) (rec : DeadLetter) (d : Dlq)
    → let (ps, done) = append_record fault rec (list_poison provider d) in
      Wrote provider
        (list_regular provider d)
        ps
        (counted done (depth d provider))
        d
        (append_poison fault provider rec d).0
unfolding append_poison append_record count_append depth list_regular list_poison
append_poison-Wrote appended_fine provider rec d = record {
  others = λ q f. simp (lookup-insert, f) (refl, refl, refl);
  own = simp (lookup-insert, eq_refl) (refl, refl, refl);
}
append_poison-Wrote nothing_written provider rec d = record {
  others = λ q f. simp (lookup-insert, f) (refl, refl, refl);
  own = simp (lookup-insert, eq_refl) (refl, refl, refl);
}
append_poison-Wrote sync_failed provider rec d = record {
  others = λ q f. simp (lookup-insert, f) (refl, refl, refl);
  own = simp (lookup-insert, eq_refl) (refl, refl, refl);
}

append_regular-IsWithin :
    (u v : String → ℕ) (b : ℕ) (fault : AppendFault) (provider : String) (rec : DeadLetter)
    (d : Dlq)
    → IsWithin u v d
    → IsWithin
        (add provider (unsynced_by fault) u)
        (add provider b v)
        (append_regular fault provider rec d).0
append_regular-IsWithin u v b fault provider rec d c =
    let (rs, done) = append_record fault rec (list_regular provider d) in
    let ps = list_poison provider d in
    let z = counted done (depth d provider) in
    Wrote-IsWithin u v provider (unsynced_by fault) b rs ps z d _
      (append_regular-Wrote fault provider rec d)
      (subst (λ k. IsNear z (length rs + length ps) k (v provider + b)) (omega arith)
        (IsNear-more z _ _ _ 0 b (
          append_record-IsNear fault rec (list_regular provider d) (depth d provider) (length ps)
            (u provider) (v provider) (c provider))))
      c

append_poison-IsNear :
    (u v : ℕ) (b k : ℕ) (fault : AppendFault) (provider : String) (rec : DeadLetter)
    (left : List DeadLetter) (d d' : Dlq)
    → length left + k ≡ length (list_regular provider d)
    → Wrote provider left (list_poison provider d) (sub_ℤ (depth d provider) k) d d'
    → IsNear (depth d provider) (size_of provider d) u v
    → let (ps, done) = append_record fault rec (list_poison provider d') in
      IsNear
        (counted done (depth d' provider))
        (length (list_regular provider d') + length ps)
        (u + unsynced_by fault)
        (v + b)
append_poison-IsNear u v b k fault provider rec left d d' e w h =
    let (depths, regular, poison) = w.own in
    let (ps, done) = append_record fault rec (list_poison provider d') in
    let near : IsNear (depth d' provider) (length (list_poison provider d') + length left) u v =
      rw (depths, poison)
        (IsNear-sub (depth d provider) k (size_of provider d) _ u v (omega (arith, e)) h) in
    rw regular (
      subst (λ n. IsNear (counted done (depth d' provider)) n (u + unsynced_by fault) (v + b))
        (omega arith)
        (subst (λ a. IsNear (counted done (depth d' provider)) (length ps + length left) a (v + b))
          (omega arith)
          (IsNear-more _ _ _ _ 0 b (
            append_record-IsNear fault rec (list_poison provider d') (depth d' provider)
              (length left) u v near))))

put_poisoned-IsWithin :
    (u v : String → ℕ) (purged : Option ℕ) (fault : AppendFault) (provider : String)
    (rec : DeadLetter) (left : List DeadLetter) (d : Dlq)
    → Sized (list_regular provider d) left purged
    → IsWithin u v d
    → let (d', ok) =
        put_poisoned purged fault provider rec
          (record d { regular = insert provider left d.regular }) in
      IsWithin
        (add provider (unsynced_by fault) u)
        (add provider (uncounted_by ok (size_of provider d - size_of provider d')) v)
        d'
unfolding put_poisoned depth
put_poisoned-IsWithin u v none fault provider rec left d sized c =
    failed-IsWithin u v (unsynced_by fault) provider left (list_poison provider d) d _
      (half_rewritten-Wrote provider left d) sized (omega arith) c
put_poisoned-IsWithin u v (some k) fault provider rec left d sized c =
    let z = sub_ℤ (depth d provider) k in
    let e : Dlq = record d {
      regular = insert provider left d.regular;
      depths = insert provider z d.depths;
    } in
    let w = rewritten-Wrote provider left z d in
    let x = append_poison-Wrote fault provider rec e in
    Wrote-IsWithin u v provider _ _ _ _ _ d _ (Wrote-trans provider _ _ _ _ _ _ d e _ w x)
      (append_poison-IsNear (u provider) (v provider) _ k fault provider rec left d e sized w
        (c provider))
      c

-- After a Put under any faults.
pub put-IsWithin :
    (u v : String → ℕ) (faults : PutFaults) (now : ℕ) (provider : String) (event : Event)
    (reason : String) (permanent : Bool) (d : Dlq)
    → IsWithin u v d
    → let (d', ok) = put faults now provider event reason permanent d in
      IsWithin
        (add provider (unsynced_by faults.append) u)
        (add provider (uncounted_by ok (size_of provider d - size_of provider d')) v)
        d'
unfolding put depth list_regular list_poison
put-IsWithin u v faults now provider event reason permanent d c =
    let attempts = suc (attempts_of d.attempts provider event.id) in
    let e : Dlq = record d { attempts = set_attempts provider event.id attempts d.attempts } in
    let old = list_regular provider d in
    let purge = remove_from_file faults.purge (event.id ∷ []) old in
    elim (Bool-cases (leb (threshold_of permanent) attempts)) [
      | inl poisoned ↦ rw poisoned (
          put_poisoned-IsWithin u v purge.1 faults.append provider _ purge.0 e
            (remove_from_file-Sized faults.purge (event.id ∷ []) old) c)
      | inr parked ↦ rw parked (append_regular-IsWithin u v _ faults.append provider _ e c)
    ]
