-- ===== src/Base/Options.antt =====
-- Predicates on an optional result.
use mathlib.Core.Path.{◌≡◌, refl, subst}
use mathlib.Core.Bool.{Bool, true, false}
use mathlib.Core.Option.{Option, none, some}
use tallyd.Base.Tests.{if◌then◌else◌}

-- What holds of a result, if there is one.
abbrev pub OnSome {ℓ κ} : {A : Type ℓ} → (A → Type κ) → Option A → Type κ
OnSome P none = Unit
OnSome P (some a) = P a

pub OnSome-if {ℓ κ} :
    {A : Type ℓ} (P : A → Type κ) (b : Bool) (x y : Option A)
    → (b ≡ true → OnSome P x)
    → (b ≡ false → OnSome P y)
    → OnSome P (if b then x else y)
OnSome-if P true x y f g = f refl
OnSome-if P false x y f g = g refl

pub some-OnSome {ℓ κ} :
    {A : Type ℓ} (P : A → Type κ) (o : Option A) (a : A) → o ≡ some a → OnSome P o → P a
some-OnSome P o a e h = subst (OnSome P) e h

-- Both branches of a conditional.
pub if_both {ℓ κ} :
    {A : Type ℓ} (P : A → Type κ) (b : Bool) (x y : A)
    → (b ≡ true → P x)
    → (b ≡ false → P y)
    → P (if b then x else y)
if_both P true x y f g = f refl
if_both P false x y f g = g refl
