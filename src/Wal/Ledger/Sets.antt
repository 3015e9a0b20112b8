-- ===== src/Wal/Ledger/Sets.antt =====
-- Lists of provider names with the same members, as the keys of a Go map.
use tallyd.Base.{
  true, ◌≡◌, refl, String, false, List, [], ◌∷◌, if◌then◌else◌, str_eq, eq_iff, arith,
}
use tallyd.Wal.Log.{member, without, is_empty, pending_set}

abbrev pub SameMembers : List String → List String → Type 0
SameMembers ps qs = (p : String) → member p ps ≡ member p qs

pub member-without :
    (p provider : String) (ps : List String)
    → member p (without provider ps) ≡ (if str_eq provider p then false else member p ps)
unfolding member without
member-without p provider [] = ground arith
member-without p provider (q ∷ ps) =
    ground (arith, member-without p provider ps, eq_iff q provider, eq_iff provider p, eq_iff q p)

pub empty-member : (name : String) (ps : List String) → is_empty ps ≡ true → member name ps ≡ false
unfolding is_empty member
empty-member name [] h = refl
empty-member name (p ∷ ps) h = absurd (ground arith)

pub without-SameMembers :
    (provider : String) (ps qs : List String)
    → SameMembers ps qs
    → SameMembers (without provider ps) (without provider qs)
without-SameMembers provider ps qs h p =
    rw (member-without p provider ps, member-without p provider qs, h p)

pub is_empty-SameMembers : (ps qs : List String) → SameMembers ps qs → is_empty ps ≡ is_empty qs
unfolding is_empty member
is_empty-SameMembers [] [] h = refl
is_empty-SameMembers [] (q ∷ qs) h = absurd (ground (arith, h q, eq_iff q q))
is_empty-SameMembers (p ∷ ps) [] h = absurd (ground (arith, h p, eq_iff p p))
is_empty-SameMembers (p ∷ ps) (q ∷ qs) h = refl

pub pending_set-SameMembers : (ps : List String) → SameMembers (pending_set ps) ps
unfolding pending_set member
pending_set-SameMembers [] p = refl
pending_set-SameMembers (q ∷ ps) p =
    ground (arith, pending_set-SameMembers ps p, pending_set-SameMembers ps q, eq_iff q p)
