-- ===== src/Dlq/Drift/Removes.antt =====
-- Remove of dlq.go under any faults: how far the depth drifts.
use tallyd.Base.{
  ℕ, ◌+◌, ◌-◌, ◌≡◌, refl, subst, String, Option, none, some, List, [], ◌∷◌, ℤ, sub_ℤ, clamp_ℤ,
  insert, lookup-insert, length, arith,
}
use text.Mathlib.TextPositions.{eq_refl}
use tallyd.Dlq.{
  DeadLetter, Dlq, depth, list_regular, list_poison, RemoveFault, remove_from_file, count_removed,
  remove_poison, remove,
}
use tallyd.Dlq.Drift.{
  IsNear-sub, IsNear-clamp, Wrote-trans, Wrote-IsWithin, remove_from_file-Sized,
  half_rewritten-Wrote, IsNear-more, failed-IsWithin, IsNear, size_of, add, IsWithin, uncounted_by,
  Sized, Wrote,
}

poison_rewritten-Wrote :
    (provider : String) (left : List DeadLetter) (z : ℤ) (d : Dlq)
    → Wrote provider
        (list_regular provider d)
        left
        z
        d
        (record d { poison = insert provider left d.poison; depths = insert provider z d.depths })
unfolding depth list_regular list_poison
poison_rewritten-Wrote provider left z d = record {
  others = λ q f. simp (lookup-insert, f) (refl, refl, refl);
  own = simp (lookup-insert, eq_refl) (refl, refl, refl);
}

half_poison_rewritten-Wrote :
    (provider : String) (left : List DeadLetter) (d : Dlq)
    → Wrote provider
        (list_regular provider d)
        left
        (depth d provider)
        d
        (record d { poison = insert provider left d.poison })
unfolding depth list_regular list_poison
half_poison_rewritten-Wrote provider left d = record {
  others = λ q f. simp (lookup-insert, f) (refl, refl, refl);
  own = simp (lookup-insert, eq_refl) (refl, refl, refl);
}

add_none : (u : String → ℕ) (p q : String) → add p 0 u q ≡ u q
add_none u p q = ground arith

-- An account that gets nothing is as before.
idle_account : (u v : String → ℕ) (p : String) (d : Dlq) → IsWithin (add p 0 u) v d → IsWithin u v d
idle_account u v p d c q =
    subst (λ n. IsNear (depth d q) (size_of q d) n (v q)) (add_none u p q) (c q)

-- Behind the rewrite of the regular file to `left`: the error of the poison file's, or the count.
count_removed-IsWithin :
    (u v : String → ℕ) (n : ℕ) (m : Option ℕ) (provider : String) (left ps : List DeadLetter)
    (d : Dlq)
    → length left + n ≡ length (list_regular provider d)
    → Sized (list_poison provider d) ps m
    → IsWithin u v d
    → let (d', ok) = count_removed n m provider (record d {
      regular = insert provider left d.regular;
      poison = insert provider ps d.poison;
    }) in
      IsWithin
        (add provider 0 u)
        (add provider (uncounted_by ok (size_of provider d - size_of provider d')) v)
        d'
unfolding count_removed depth
count_removed-IsWithin u v n none provider left ps d sized sized_poison c =
    let e : Dlq = record d { regular = insert provider left d.regular } in
    let w = half_rewritten-Wrote provider left d in
    let x = half_poison_rewritten-Wrote provider ps e in
    failed-IsWithin u v 0 provider (list_regular provider e) ps d _
      (Wrote-trans provider _ _ _ _ _ _ d e _ w x) (rw w.own.1 (omega (arith, sized))) sized_poison
      c
count_removed-IsWithin u v n (some m) provider left ps d sized sized_poison c =
    let e : Dlq = record d { regular = insert provider left d.regular } in
    let z = sub_ℤ (depth d provider) (n + m) in
    let w = half_rewritten-Wrote provider left d in
    let x = poison_rewritten-Wrote provider ps (clamp_ℤ z) e in
    Wrote-IsWithin u v provider 0 0 (list_regular provider e) ps (clamp_ℤ z) d _
      (Wrote-trans provider _ _ _ _ _ _ d e _ w x)
      (rw w.own.1 (
        IsNear-more _ _ _ _ 0 0 (
          IsNear-clamp z _ _ _ (
            IsNear-sub (depth d provider) (n + m) (size_of provider d) _ _ _
              (omega (arith, sized, sized_poison)) (c provider)))))
      c

remove_poison-IsWithin :
    (u v : String → ℕ) (n : Option ℕ) (fault : RemoveFault) (provider : String) (ids : List String)
    (left : List DeadLetter) (d : Dlq)
    → Sized (list_regular provider d) left n
    → IsWithin u v d
    → let (d', ok) =
        remove_poison n fault provider ids
          (record d { regular = insert provider left d.regular }) in
      IsWithin
        (add provider 0 u)
        (add provider (uncounted_by ok (size_of provider d - size_of provider d')) v)
        d'
unfolding remove_poison list_poison
remove_poison-IsWithin u v none fault provider ids left d sized c =
    failed-IsWithin u v 0 provider left (list_poison provider d) d _
      (half_rewritten-Wrote provider left d) sized (omega arith) c
remove_poison-IsWithin u v (some n) fault provider ids left d sized c =
    let rewrite = remove_from_file fault ids (list_poison provider d) in
    count_removed-IsWithin u v n rewrite.1 provider left rewrite.0 d sized
      (remove_from_file-Sized fault ids (list_poison provider d)) c

-- After a Remove under any faults.
pub remove-IsWithin :
    (u v : String → ℕ) (regular_fault poison_fault : RemoveFault) (provider : String)
    (ids : List String) (d : Dlq)
    → IsWithin u v d
    → let (d', ok) = remove regular_fault poison_fault provider ids d in
      IsWithin u (add provider (uncounted_by ok (size_of provider d - size_of provider d')) v) d'
unfolding remove list_regular
remove-IsWithin u v regular_fault poison_fault provider [] d c =
    λ q. rw (add_none v provider q) (c q)
remove-IsWithin u v regular_fault poison_fault provider (id ∷ ids) d c =
    let rewrite = remove_from_file regular_fault (id ∷ ids) (list_regular provider d) in
    idle_account u _ provider _ (
      remove_poison-IsWithin u v rewrite.1 poison_fault provider (id ∷ ids) rewrite.0 d
        (remove_from_file-Sized regular_fault (id ∷ ids) (list_regular provider d)) c)
