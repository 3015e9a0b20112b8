-- ===== src/Dlq/Drift.antt =====
-- How far the depth that dlq.go keeps can be from its two files: Put counts a line behind its fsync,
-- and Remove counts behind both rewrites.
pub mod Puts
pub mod Removes
use tallyd.Base.{
  ℕ, zero, suc, ◌+◌, ◌-◌, ◌≤◌, ◌≡◌, refl, ap, ◌∙◌, subst, inl, inr, String, Bool, true, false,
  Option, none, some, List, [], ◌∷◌, ◌++◌, str_eq, if◌then◌else◌, ℤ, pos, negsuc, inc_ℤ, sub_ℤ,
  clamp_ℤ, lookup, insert, lookup-insert, length, length_snoc, leb, arith, Bool-cases, str_eq-cases,
}
use text.Mathlib.TextPositions.{eq_refl}
use tallyd.Adapter.{Event}
use tallyd.Dlq.{
  DeadLetter, Dlq, depth, list_regular, list_poison, records_of, keep_others, RemoveFault,
  removed_fine, read_failed, rewrite_failed, reopen_failed, remove_from_file, AppendFault,
  appended_fine, nothing_written, sync_failed, append_record, PutFaults, count_append,
  append_regular, append_poison, put_poisoned, put, threshold_of, attempts_of, set_attempts,
  count_removed, remove_poison, remove,
}
use tallyd.Dlq.Depth.{length-keep_others}

-- `n` records under the depth `z`, but for `u` that it does not count and `v` that it counts still.
abbrev pub IsNear : ℤ → ℕ → ℕ → ℕ → Type 0
IsNear (pos m) n u v = (n ≤ m + u) × (m ≤ n + v)
IsNear (negsuc m) n u v = n + suc m ≤ u

pub IsNear-inc : (z : ℤ) (n u v : ℕ) → IsNear z n u v → IsNear (inc_ℤ z) (suc n) u v
IsNear-inc (pos m) n u v h = ground arith
IsNear-inc (negsuc zero) n u v h = ground arith
IsNear-inc (negsuc (suc m)) n u v h = omega arith

pub IsNear-sub : (z : ℤ) (k n n' u v : ℕ) → n' + k ≡ n → IsNear z n u v → IsNear (sub_ℤ z k) n' u v
IsNear-sub (pos m) k n n' u v e h = elim (Bool-cases (leb k m)) [
  | inl t ↦ rw t (ground arith)
  | inr f ↦ rw f (ground arith)
]
IsNear-sub (negsuc m) k n n' u v e h = omega arith

pub IsNear-clamp : (z : ℤ) (n u v : ℕ) → IsNear z n u v → IsNear (clamp_ℤ z) n u v
IsNear-clamp (pos m) n u v h = h
IsNear-clamp (negsuc m) n u v h = (omega arith, omega arith)

-- Records that come or go without the depth.
pub IsNear-drift :
    (z : ℤ) (n n' u v a b : ℕ)
    → n' ≤ n + a
    → n ≤ n' + b
    → IsNear z n u v
    → IsNear z n' (u + a) (v + b)
IsNear-drift (pos m) n n' u v a b more less h = (omega (arith, h.0), omega (arith, h.1))
IsNear-drift (negsuc m) n n' u v a b more less h = omega arith

pub IsNear-exact : (z : ℤ) (n : ℕ) → IsNear z n 0 0 → z ≡ pos n
IsNear-exact (pos m) n h = ground arith
IsNear-exact (negsuc m) n h = absurd (omega arith)

pub exact-IsNear : (z : ℤ) (n : ℕ) → z ≡ pos n → IsNear z n 0 0
exact-IsNear z n e = rw e (omega arith, omega arith)

abbrev pub size_of : String → Dlq → ℕ
size_of p d = length (list_regular p d) + length (list_poison p d)

-- What is added to the account of one provider.
abbrev pub add : String → ℕ → (String → ℕ) → String → ℕ
add p n account q = if str_eq p q then account q + n else account q

-- The depth of every provider is that of its two files but for what the accounts have.
abbrev pub IsWithin : (String → ℕ) → (String → ℕ) → Dlq → Type 0
IsWithin u v d = (p : String) → IsNear (depth d p) (size_of p d) (u p) (v p)

-- The line that an append can leave behind without a count.
abbrev pub unsynced_by : AppendFault → ℕ
unsynced_by appended_fine = 0
unsynced_by nothing_written = 0
unsynced_by sync_failed = 1

-- The records that an operation which has answered an error has taken out.
abbrev pub uncounted_by : Bool → ℕ → ℕ
uncounted_by true gone = 0
uncounted_by false gone = gone

-- An operation on one provider, which leaves it these records and this depth.
pub record Wrote (provider : String) (rs ps : List DeadLetter) (z : ℤ) (d d' : Dlq) : Type 0 where
  pub others :
      (q : String)
      → str_eq provider q ≡ false
      → (depth d' q ≡ depth d q)
        × (list_regular q d' ≡ list_regular q d)
        × (list_poison q d' ≡ list_poison q d)
  pub own :
      (depth d' provider ≡ z) × (list_regular provider d' ≡ rs) × (list_poison provider d' ≡ ps)

pub Wrote-trans :
    (provider : String) (rs rs' ps ps' : List DeadLetter) (z z' : ℤ) (d e f : Dlq)
    → Wrote provider rs ps z d e
    → Wrote provider rs' ps' z' e f
    → Wrote provider rs' ps' z' d f
Wrote-trans provider rs rs' ps ps' z z' d e f w x = record {
  others = λ q n.
      let (a, b, c) = w.others q n in let (a', b', c') = x.others q n in (a' ∙ a, b' ∙ b, c' ∙ c);
  own = x.own;
}

pub Wrote-IsWithin :
    (u v : String → ℕ) (provider : String) (a b : ℕ) (rs ps : List DeadLetter) (z : ℤ) (d d' : Dlq)
    → Wrote provider rs ps z d d'
    → IsNear z (length rs + length ps) (u provider + a) (v provider + b)
    → IsWithin u v d
    → IsWithin (add provider a u) (add provider b v) d'
Wrote-IsWithin u v provider a b rs ps z d d' w near c q =
    let (depths, regular, poison) = w.own in
    elim (str_eq-cases provider q) [
      | inl (same, t) ↦ rw (← same) (rw (eq_refl provider, depths, regular, poison) near)
      | inr (other, f) ↦ let (e, r, p) = w.others q f in rw f (rw (e, r, p) (c q))
    ]

-- What remove_from_file answers for the records it is given.
abbrev pub Sized : List DeadLetter → List DeadLetter → Option ℕ → Type 0
Sized rs left none = length left ≤ length rs
Sized rs left (some k) = length left + k ≡ length rs

pub remove_from_file-Sized :
    (fault : RemoveFault) (ids : List String) (rs : List DeadLetter)
    → Sized rs (remove_from_file fault ids rs).0 (remove_from_file fault ids rs).1
unfolding remove_from_file
remove_from_file-Sized read_failed ids rs = omega arith
remove_from_file-Sized rewrite_failed ids rs = ground (arith, length-keep_others ids rs)
remove_from_file-Sized reopen_failed ids rs = ground (arith, length-keep_others ids rs)
remove_from_file-Sized removed_fine ids rs = ground (arith, length-keep_others ids rs)

-- A rewrite of the regular file, with a new depth or with the old one.
pub rewritten-Wrote :
    (provider : String) (left : List DeadLetter) (z : ℤ) (d : Dlq)
    → Wrote provider left
        (list_poison provider d)
        z
        d
        (record d { regular = insert provider left d.regular; depths = insert provider z d.depths })
unfolding depth list_regular list_poison
rewritten-Wrote provider left z d = record {
  others = λ q f. simp (lookup-insert, f) (refl, refl, refl);
  own = simp (lookup-insert, eq_refl) (refl, refl, refl);
}

pub half_rewritten-Wrote :
    (provider : String) (left : List DeadLetter) (d : Dlq)
    → Wrote provider left
        (list_poison provider d)
        (depth d provider)
        d
        (record d { regular = insert provider left d.regular })
unfolding depth list_regular list_poison
half_rewritten-Wrote provider left d = record {
  others = λ q f. simp (lookup-insert, f) (refl, refl, refl);
  own = simp (lookup-insert, eq_refl) (refl, refl, refl);
}

-- More on the accounts is no harm.
pub IsNear-more : (z : ℤ) (n u v a b : ℕ) → IsNear z n u v → IsNear z n (u + a) (v + b)
IsNear-more z n u v a b h = IsNear-drift z n n u v a b (omega arith) (omega arith) h

-- An operation that answers an error, and has taken out records without a count.
pub failed-IsWithin :
    (u v : String → ℕ) (a : ℕ) (provider : String) (rs ps : List DeadLetter) (d d' : Dlq)
    → Wrote provider rs ps (depth d provider) d d'
    → length rs ≤ length (list_regular provider d)
    → length ps ≤ length (list_poison provider d)
    → IsWithin u v d
    → IsWithin (add provider a u) (add provider (size_of provider d - size_of provider d') v) d'
failed-IsWithin u v a provider rs ps d d' w fewer fewer' c =
    let (depths, regular, poison) = w.own in
    Wrote-IsWithin u v provider _ _ rs ps (depth d provider) d d' w
      (IsNear-drift (depth d provider) (size_of provider d) _ (u provider) (v provider) a
        (size_of provider d - size_of provider d') (omega arith)
        (omega (arith, ap length regular, ap length poison)) (c provider))
      c
