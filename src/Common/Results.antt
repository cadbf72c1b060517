-- ===== src/Common/Results.antt =====
-- Python's exceptions as values. A constructor stands for an exception class with the message
-- prefix by which the code classifies it; the rest of the message is not modelled.
use mathlib.Core.Path.{◌≡◌, refl, sym, subst}
use mathlib.Core.Logic.{◌⊎◌, inl, inr}
use mathlib.Core.Bool.{Bool, true, false}
use mathlib.Core.List.{List, [], ◌∷◌, Memᴰ}
use syvert.Common.Tests.{Bool-cases}
use syvert.Common.Lists.{keep, sort_by, sort_by-mem}

pub data Error : Type 0 where
  contract invalid_request unavailable state_conflict revision_conflict : Error
  invalid_release lease_mismatch release_conflict : Error
  health_contract credential_contract : Error
  trace_contract trace_persistence value_error key_error not_terminated : Error

pub data Result {ℓ} (Answer : Type ℓ) : Type ℓ where
  err : Error → Result Answer
  ok : Answer → Result Answer

-- A call for its effect: it may raise, and answers nothing.
abbrev pub Check : Type 0
Check = Result (Unit {0})

abbrev pub pass : Check
pass = ok tt

-- `if b: raise e`
abbrev pub forbid : Bool → Error → Check
forbid false e = pass
forbid true e = err e

-- `if not b: raise e`
abbrev pub require : Bool → Error → Check
require false e = err e
require true e = pass

-- The next statement runs if nothing was raised.
abbrev pub ◌>>◌ {ℓ} : {Answer : Type ℓ} → Check → Result Answer → Result Answer
err raised >> next = err raised
ok done >> next = next

abbrev pub ◌>>=◌ {ℓ κ} :
    {Value : Type ℓ} {Answer : Type κ} → Result Value → (Value → Result Answer) → Result Answer
err raised >>= next = err raised
ok value >>= next = next value

infixl 5 ◌>>◌ ◌>>=◌
-- `for x in xs: check(x)`
unfoldable pub each {ℓ} : {A : Type ℓ} → (A → Check) → List A → Check
each check [] = pass
each check (x ∷ xs) = check x >> each check xs

unfoldable pub traverse {ℓ κ} :
    {A : Type ℓ} {B : Type κ} → (A → Result B) → List A → Result (List B)
traverse f [] = ok []
traverse f (x ∷ xs) = do y ← f x; ys ← traverse f xs; ok (y ∷ ys)

-- What ran to its end had every call in it run to its end.
pub >>-eq-ok {ℓ} :
    {Answer : Type ℓ} (first : Check) (next : Result Answer) {answer : Answer}
    → (first >> next) ≡ ok answer
    → (first ≡ pass) × (next ≡ ok answer)
>>-eq-ok (err raised) next ran = cc
>>-eq-ok (ok tt) next ran = (refl, ran)

pub >>=-eq-ok {ℓ κ} :
    {Value : Type ℓ} {Answer : Type κ} (first : Result Value) (next : Value → Result Answer)
    {answer : Answer}
    → (first >>= next) ≡ ok answer
    → (value : Value) × (first ≡ ok value) × (next value ≡ ok answer)
>>=-eq-ok (err raised) next ran = cc
>>=-eq-ok (ok value) next ran = (value, refl, ran)

pub ok_injective {ℓ} : {A : Type ℓ} {a b : A} → ok a ≡ ok b → a ≡ b
ok_injective h = cc

pub require-eq-pass : (b : Bool) (e : Error) → require b e ≡ pass → b ≡ true
require-eq-pass true e h = refl
require-eq-pass false e h = cc

pub forbid-eq-pass : (b : Bool) (e : Error) → forbid b e ≡ pass → b ≡ false
forbid-eq-pass false e h = refl
forbid-eq-pass true e h = cc

-- A predicate on every member of a list, which computes to a tuple.
abbrev pub All {ℓ κ} : {Member : Type ℓ} → (Member → Type κ) → List Member → Type κ
All Holds (member ∷ others) = Holds member × All Holds others
All Holds [] = Unit

pub each-All {ℓ} :
    {A : Type ℓ} (check : A → Check) (xs : List A)
    → each check xs ≡ pass
    → All (λ x. check x ≡ pass) xs
unfolding each
each-All check [] h = tt
each-All check (x ∷ xs) h =
    let (first, rest) = >>-eq-ok (check x) (each check xs) h in (first, each-All check xs rest)

pub All-each {ℓ} :
    {A : Type ℓ} (check : A → Check) (xs : List A)
    → All (λ x. check x ≡ pass) xs
    → each check xs ≡ pass
unfolding each
All-each check [] h = refl
All-each check (x ∷ xs) h = rw h.0 (All-each check xs h.1)

pub All-mem {ℓ κ} : {A : Type ℓ} (P : A → Type κ) (xs : List A) {x : A} → All P xs → Memᴰ x xs → P x
All-mem P [] p m = elim m [ ]
All-mem P (y ∷ xs) p (Memᴰ.head e) = subst P (sym e) p.0
All-mem P (y ∷ xs) p (Memᴰ.tail m) = All-mem P xs p.1 m

pub All-from_mem {ℓ κ} :
    {A : Type ℓ} (P : A → Type κ) (xs : List A) → ((x : A) → Memᴰ x xs → P x) → All P xs
All-from_mem P [] f = tt
All-from_mem P (x ∷ xs) f = (f x (Memᴰ.head refl), All-from_mem P xs (λ y m. f y (Memᴰ.tail m)))

pub All-sort_by {ℓ κ} :
    {A : Type ℓ} (P : A → Type κ) (le : A → A → Bool) (xs : List A)
    → All P xs
    → All P (sort_by le xs)
All-sort_by P le xs all =
    All-from_mem P (sort_by le xs) (λ x m. All-mem P xs all (sort_by-mem le x xs m))

pub All-keep {ℓ κ} :
    {A : Type ℓ} (P : A → Type κ) (p : A → Bool) (xs : List A) → All P xs → All P (keep p xs)
unfolding keep
All-keep P p [] all = tt
All-keep P p (x ∷ xs) all = elim (Bool-cases (p x)) [
  | inl e ↦ rw e (all.0, All-keep P p xs all.1)
  | inr e ↦ rw e (All-keep P p xs all.1)
]

pub All-map {ℓ κ μ} :
    {A : Type ℓ} {P : A → Type κ} {R : A → Type μ} (f : (x : A) → P x → R x) (xs : List A)
    → All P xs
    → All R xs
All-map f [] p = tt
All-map f (x ∷ xs) p = (f x p.0, All-map f xs p.1)

pub All-zip {ℓ κ μ ν} :
    {A : Type ℓ} {P : A → Type κ} {Q : A → Type μ} {R : A → Type ν} (f : (x : A) → P x → Q x → R x)
    (xs : List A)
    → All P xs
    → All Q xs
    → All R xs
All-zip f [] p q = tt
All-zip f (x ∷ xs) p q = (f x p.0 q.0, All-zip f xs p.1 q.1)

-- A conversion that undoes another on each value undoes it on lists.
pub traverse-inverse {ℓ κ} :
    {A : Type ℓ} {B : Type κ} (f : A → Result B) (g : B → Result A)
    → ((a : A) (b : B) → f a ≡ ok b → g b ≡ ok a)
    → (xs : List A) {bs : List B} → traverse f xs ≡ ok bs
    → traverse g bs ≡ ok xs
unfolding traverse
traverse-inverse f g back [] h = rw (← ok_injective h)
traverse-inverse f g back (a ∷ xs) h =
    let (b, first, rest) = >>=-eq-ok (f a) _ h in
    let (bs, more, last) = >>=-eq-ok (traverse f xs) _ rest in
    rw (← ok_injective last, traverse)
      (rw (back a b first) (rw (traverse-inverse f g back xs more)))

pub Result-cases {ℓ} :
    {A : Type ℓ} (m : Result A) → ((a : A) × (m ≡ ok a)) ⊎ ((e : Error) × (m ≡ err e))
Result-cases (ok a) = inl (a, refl)
Result-cases (err e) = inr (e, refl)
