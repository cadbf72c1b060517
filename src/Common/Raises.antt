-- ===== src/Common/Raises.antt =====
-- Which errors a computation may raise, one rule for each way to build one.
use mathlib.Core.Path.{◌≡◌, refl}
use mathlib.Core.Bool.{Bool, true, false}
use mathlib.Core.List.{List, [], ◌∷◌}
use syvert.Common.Tests.{if◌then◌else◌}
use syvert.Common.Results.{
  Error, Result, ok, err, ◌>>=◌, ◌>>◌, Check, require, forbid, each, traverse,
}

-- Whatever is raised has the property.
pub record Raises {ℓ} {A : Type ℓ} (P : Error → Bool) (m : Result A) : Type ℓ where
  pub raised : (e : Error) → m ≡ err e → P e ≡ true

module _ {P : Error → Bool} where
  pub Raises-ok {ℓ} : {A : Type ℓ} (a : A) → Raises P (ok a)
  Raises-ok a = record { raised = λ e h. cc }

  pub Raises-err {ℓ} : {A : Type ℓ} (e : Error) → P e ≡ true → Raises {A = A} P (err e)
  Raises-err e p = record { raised = λ e' h. rw (← (let i : e ≡ e' = cc in i)) p }

  pub Raises-require : (b : Bool) (e : Error) → P e ≡ true → Raises P (require b e)
  Raises-require true e p = Raises-ok tt
  Raises-require false e p = Raises-err e p

  pub Raises-forbid : (b : Bool) (e : Error) → P e ≡ true → Raises P (forbid b e)
  Raises-forbid false e p = Raises-ok tt
  Raises-forbid true e p = Raises-err e p

  pub Raises-bind {ℓ κ} :
      {A : Type ℓ} {B : Type κ} (m : Result A) (f : A → Result B)
      → Raises P m
      → ((a : A) → Raises P (f a))
      → Raises P (m >>= f)
  Raises-bind (ok a) f p q = q a
  Raises-bind (err e) f p q = Raises-err e (p.raised e refl)

  -- As before, where the rest may rely on what came out.
  pub Raises-bind_eq {ℓ κ} :
      {A : Type ℓ} {B : Type κ} (m : Result A) (f : A → Result B)
      → Raises P m
      → ((a : A) → m ≡ ok a → Raises P (f a))
      → Raises P (m >>= f)
  Raises-bind_eq (ok a) f p q = q a refl
  Raises-bind_eq (err e) f p q = Raises-err e (p.raised e refl)

  pub Raises-then {ℓ} :
      {A : Type ℓ} (m : Check) (k : Result A) → Raises P m → Raises P k → Raises P (m >> k)
  Raises-then (ok a) k p q = q
  Raises-then (err e) k p q = Raises-err e (p.raised e refl)

  pub Raises-if {ℓ} :
      {A : Type ℓ} (b : Bool) (m n : Result A)
      → Raises P m
      → Raises P n
      → Raises P (if b then m else n)
  Raises-if true m n p q = p
  Raises-if false m n p q = q

  pub Raises-each {ℓ} :
      {A : Type ℓ} (check : A → Check) (xs : List A)
      → ((a : A) → Raises P (check a))
      → Raises P (each check xs)
  unfolding each
  Raises-each check [] p = Raises-ok tt
  Raises-each check (x ∷ xs) p =
      Raises-then (check x) (each check xs) (p x) (Raises-each check xs p)

  pub Raises-traverse {ℓ κ} :
      {A : Type ℓ} {B : Type κ} (f : A → Result B) (xs : List A)
      → ((a : A) → Raises P (f a))
      → Raises P (traverse f xs)
  unfolding traverse
  Raises-traverse f [] p = Raises-ok []
  Raises-traverse f (x ∷ xs) p =
      Raises-bind (f x) _ (p x)
        (λ y. Raises-bind (traverse f xs) _ (Raises-traverse f xs p) (λ ys. Raises-ok (y ∷ ys)))

pub ruleset raises_rules = (
  Raises-ok, Raises-err, Raises-require, Raises-forbid, Raises-bind, Raises-then, Raises-if,
  Raises-each, Raises-traverse,
)
