-- ===== src/Common/Lists.antt =====
-- Lists over the native numbers, and Python's stable `sorted`.
use Prim.Native.Nat.{ℕ, suc}
use mathlib.Core.Path.{refl, ◌≡◌, sym, subst}
use mathlib.Core.Logic.{inl, inr}
use mathlib.Core.Bool.{Bool, true}
use mathlib.Core.List.{List, [], ◌∷◌, Perm, Memᴰ}
use mathlib.Core.List.Perm
use native.Mathlib.Omega.{arith}
use syvert.Common.Tests.{if◌then◌else◌, Bool-cases}

module _ {ℓ} {A : Type ℓ} where
  abbrev pub length : List A → ℕ
  length [] = 0
  length (x ∷ xs) = suc (length xs)

  -- `[x for x in xs if p(x)]`
  unfoldable pub keep : (A → Bool) → List A → List A
  keep p [] = []
  keep p (x ∷ xs) = let rest = keep p xs in if p x then x ∷ rest else rest

  keep-mem_cons :
      (p : A → Bool) (a x : A) (xs : List A)
      → p x ≡ true
      → (Memᴰ a (keep p xs) → Memᴰ a xs × (p a ≡ true))
      → Memᴰ a (x ∷ keep p xs)
      → Memᴰ a (x ∷ xs) × (p a ≡ true)
  keep-mem_cons p a x xs e rest (Memᴰ.head same) =
      (Memᴰ.head same, subst (λ y. p y ≡ true) (sym same) e)
  keep-mem_cons p a x xs e rest (Memᴰ.tail m) =
      let (there, holds) = rest m in (Memᴰ.tail there, holds)

  pub keep-mem :
      (p : A → Bool) (a : A) (xs : List A) → Memᴰ a (keep p xs) → Memᴰ a xs × (p a ≡ true)
  unfolding keep
  keep-mem p a [] m = elim m [ ]
  keep-mem p a (x ∷ xs) m = elim (Bool-cases (p x)) [
    | inr e ↦ (let (there, holds) = keep-mem p a xs (rw (e, keep) at m) in (Memᴰ.tail there, holds))
    | inl e ↦ keep-mem_cons p a x xs e (keep-mem p a xs) (rw (e, keep) at m)
  ]

  keep-eq : (p : A → Bool) (x : A) (xs : List A) → p x ≡ true → keep p (x ∷ xs) ≡ x ∷ keep p xs
  unfolding keep
  keep-eq p x xs h = rw h refl

  pub mem-keep : (p : A → Bool) (a : A) (xs : List A) → Memᴰ a xs → p a ≡ true → Memᴰ a (keep p xs)
  unfolding keep
  mem-keep p a [] m h = elim m [ ]
  mem-keep p a (x ∷ xs) (Memᴰ.head e) h =
      subst (Memᴰ a) (sym (keep-eq p x xs (subst (λ y. p y ≡ true) e h))) (Memᴰ.head e)
  mem-keep p a (x ∷ xs) (Memᴰ.tail m) h =
      let rest = mem-keep p a xs m h in
      elim (Bool-cases (p x)) [
        | inl e ↦ subst (Memᴰ a) (sym (keep-eq p x xs e)) (Memᴰ.tail rest)
        | inr e ↦ rw e rest
      ]

  module _ (le : A → A → Bool) where
    insert_sorted : A → List A → List A
    insert_sorted x [] = x ∷ []
    insert_sorted x (y ∷ ys) = if le x y then x ∷ y ∷ ys else y ∷ insert_sorted x ys

    -- `sorted(xs, key=…)`: equal keys keep their order
    unfoldable pub sort_by : List A → List A
    unfolding insert_sorted
    sort_by [] = []
    sort_by (x ∷ xs) = insert_sorted x (sort_by xs)

    insert_sorted-perm : (x : A) (ys : List A) → Perm (insert_sorted x ys) (x ∷ ys)
    unfolding insert_sorted
    insert_sorted-perm x [] = Perm.refl _
    insert_sorted-perm x (y ∷ ys) =
        let tail = Perm.trans (Perm.cons y (insert_sorted-perm x ys)) (Perm.swap x y ys) in
        ground (arith, tail, Perm.refl (x ∷ y ∷ ys))

    pub sort_by-perm : (xs : List A) → Perm (sort_by xs) xs
    unfolding sort_by
    sort_by-perm [] = Perm.refl []
    sort_by-perm (x ∷ xs) =
        Perm.trans (insert_sorted-perm x (sort_by xs)) (Perm.cons x (sort_by-perm xs))

    swap_mem :
        (a x y : A) (ys zs : List A)
        → (Memᴰ a zs → Memᴰ a (x ∷ ys))
        → Memᴰ a (y ∷ zs)
        → Memᴰ a (x ∷ y ∷ ys)
    swap_mem a x y ys zs rest (Memᴰ.head e) = Memᴰ.tail (Memᴰ.head e)
    swap_mem a x y ys zs rest (Memᴰ.tail m) = elim (rest m) [
      | Memᴰ.head e ↦ Memᴰ.head e
      | Memᴰ.tail m' ↦ Memᴰ.tail (Memᴰ.tail m')
    ]

    insert_sorted-mem : (a x : A) (ys : List A) → Memᴰ a (insert_sorted x ys) → Memᴰ a (x ∷ ys)
    unfolding insert_sorted
    insert_sorted-mem a x [] m = m
    insert_sorted-mem a x (y ∷ ys) m = elim (Bool-cases (le x y)) [
      | inl e ↦ rw (e, insert_sorted) at m
      | inr e ↦
          swap_mem a x y ys (insert_sorted x ys) (insert_sorted-mem a x ys)
            (rw (e, insert_sorted) at m)
    ]

    cons_mem :
        (a x : A) (ys zs : List A) → (Memᴰ a ys → Memᴰ a zs) → Memᴰ a (x ∷ ys) → Memᴰ a (x ∷ zs)
    cons_mem a x ys zs rest (Memᴰ.head e) = Memᴰ.head e
    cons_mem a x ys zs rest (Memᴰ.tail m) = Memᴰ.tail (rest m)

    pub sort_by-mem : (a : A) (xs : List A) → Memᴰ a (sort_by xs) → Memᴰ a xs
    unfolding sort_by
    sort_by-mem a [] m = m
    sort_by-mem a (x ∷ xs) m =
        cons_mem a x (sort_by xs) xs (sort_by-mem a xs) (insert_sorted-mem a x (sort_by xs) m)
