-- ===== src/Health/Admission/Latest.antt =====
-- The newest evidence of one account, and what the account is judged by.
use syvert.Common.{
  ◌⊎◌, ℕ, String, ◌≡◌, ◌≢◌, refl, sym, ap, subst, ◌∙◌, ◌<◌, ◌≤◌, true, false, Bool-cases, inl, inr,
  List, [], ◌∷◌, map, Memᴰ, All, All-mem, arith, eq_iff, eqb, ltb, has, Result, ok, traverse,
  >>=-eq-ok, ok_injective, if◌then◌else◌,
}
use syvert.Health.Types.{ResourceHealthEvidence, healthy, stale, session_invalid, evidence_statuses}
use syvert.Health.Admission.{
  max_time, observed_time, max_observed_at, latest_evidence, expiry_of, any_due, AccountHealth,
  judge_latest, judge_account,
}

abbrev NotNewer : ℕ → ResourceHealthEvidence → Type 0
NotNewer t e = (observed : ℕ) × (observed_time e ≡ ok observed) × (observed ≤ t)

-- Evidence that is among the newest, says healthy, and expires after `at`.
pub record Fresh (at : ℕ) (es : List ResourceHealthEvidence) : Type 0 where
  pub proof : ResourceHealthEvidence
  pub member : Memᴰ proof es
  pub is_healthy : proof.status ≡ healthy
  pub observed : ℕ
  pub observed_then : observed_time proof ≡ ok observed
  pub newest : All (NotNewer observed) es
  pub expires : ℕ
  pub expires_then : expiry_of proof ≡ ok expires
  pub in_time : at < expires

max_time-ge : (t : ℕ) (xs : List ℕ) → (t ≤ max_time t xs) × All (λ x. x ≤ max_time t xs) xs
unfolding max_time
max_time-ge t [] = (omega arith, tt)
max_time-ge t (x ∷ xs) =
    let (first, rest) = max_time-ge (if ltb t x then x else t) xs in
    (ground (arith, first), (ground (arith, first), rest))

-- The newest time is the first one or that of some evidence.
max_time-attained :
    (t : ℕ) (es : List ResourceHealthEvidence) {ts : List ℕ}
    → traverse observed_time es ≡ ok ts
    → (max_time t ts ≡ t)
      ⊎ ((e : ResourceHealthEvidence) × Memᴰ e es × (observed_time e ≡ ok (max_time t ts)))
unfolding max_time traverse
max_time-attained t [] h = inl (rw (← ok_injective h) refl)
max_time-attained t (e ∷ es) h =
    let (x, observed, h) = >>=-eq-ok (observed_time e) _ h in
    let (xs, others, last) = >>=-eq-ok (traverse observed_time es) _ h in
    rw (← ok_injective last) (elim (Bool-cases (ltb t x)) [
      | inl e' ↦
          rw (e', max_time)
            (elim (max_time-attained x es others) [
              | inl is ↦ inr (e, Memᴰ.head refl, observed ∙ ap ok (sym is))
              | inr (f, m, o) ↦ inr (f, Memᴰ.tail m, o)
            ])
      | inr e' ↦
          rw (e', max_time)
            (elim (max_time-attained t es others) [
              | inl is ↦ inl is
              | inr (f, m, o) ↦ inr (f, Memᴰ.tail m, o)
            ])
    ])

All-NotNewer :
    (m : ℕ) (es : List ResourceHealthEvidence) {ts : List ℕ}
    → traverse observed_time es ≡ ok ts
    → All (λ x. x ≤ m) ts
    → All (NotNewer m) es
unfolding traverse
All-NotNewer m [] h all = tt
All-NotNewer m (e ∷ es) h all =
    let (x, observed, h) = >>=-eq-ok (observed_time e) _ h in
    let (xs, others, last) = >>=-eq-ok (traverse observed_time es) _ h in
    let all' = subst (All (λ x. x ≤ m)) (sym (ok_injective last)) all in
    ((x, observed, all'.0), All-NotNewer m es others all'.1)

latest_evidence-mem :
    (t : ℕ) (es : List ResourceHealthEvidence) (f : ResourceHealthEvidence)
    {l : List ResourceHealthEvidence}
    → latest_evidence t es ≡ ok l
    → Memᴰ f es
    → observed_time f ≡ ok t
    → Memᴰ f l
unfolding latest_evidence
latest_evidence-mem t [] f h m o = elim m [ ]
latest_evidence-mem t (e ∷ es) f h (Memᴰ.head same) o =
    let (x, observed, h) = >>=-eq-ok (observed_time e) _ h in
    let (rest, _, last) = >>=-eq-ok (latest_evidence t es) _ h in
    let is : x ≡ t = ok_injective (sym observed ∙ ap observed_time (sym same) ∙ o) in
    subst (Memᴰ f) (ok_injective (rw (let i : eqb x t ≡ true = ground (arith, is) in i) at last))
      (Memᴰ.head same)
latest_evidence-mem t (e ∷ es) f h (Memᴰ.tail m) o =
    let (x, observed, h) = >>=-eq-ok (observed_time e) _ h in
    let (rest, others, last) = >>=-eq-ok (latest_evidence t es) _ h in
    let there = latest_evidence-mem t es f others m o in
    elim (Bool-cases (eqb x t)) [
      | inl i ↦ subst (Memᴰ f) (ok_injective (rw i at last)) (Memᴰ.tail there)
      | inr i ↦ subst (Memᴰ f) (ok_injective (rw i at last)) there
    ]

has-status-mem :
    (k : String) (f : ResourceHealthEvidence) (l : List ResourceHealthEvidence)
    → has k (map (λ e. e.status) l) ≡ false
    → Memᴰ f l
    → f.status ≢ k
unfolding has
has-status-mem k f [] h m = elim m [ ]
has-status-mem k f (e ∷ l) h (Memᴰ.head same) = λ is.
    ground
      (arith, h, eq_iff e.status k, sym (ap (λ (x : ResourceHealthEvidence). x.status) same) ∙ is)
has-status-mem k f (e ∷ l) h (Memᴰ.tail m) = has-status-mem k f l (ground (arith, h)) m

traverse-mem {ℓ κ} :
    {A : Type ℓ} {B : Type κ} (g : A → Result B) (xs : List A) (x : A) {ys : List B}
    → traverse g xs ≡ ok ys
    → Memᴰ x xs
    → (y : B) × (g x ≡ ok y) × Memᴰ y ys
unfolding traverse
traverse-mem g [] x h m = elim m [ ]
traverse-mem g (a ∷ xs) x h (Memᴰ.head same) =
    let (y, first, h) = >>=-eq-ok (g a) _ h in
    let (ys, _, last) = >>=-eq-ok (traverse g xs) _ h in
    (y, ap g same ∙ first, subst (Memᴰ y) (ok_injective last) (Memᴰ.head refl))
traverse-mem g (a ∷ xs) x h (Memᴰ.tail m) =
    let (z, first, h) = >>=-eq-ok (g a) _ h in
    let (ys, others, last) = >>=-eq-ok (traverse g xs) _ h in
    let (y, is, there) = traverse-mem g xs x others m in
    (y, is, subst (Memᴰ y) (ok_injective last) (Memᴰ.tail there))

any_due-mem : (at : ℕ) (ys : List ℕ) (y : ℕ) → any_due at ys ≡ false → Memᴰ y ys → at < y
unfolding any_due
any_due-mem at [] y h m = elim m [ ]
any_due-mem at (x ∷ ys) y h (Memᴰ.head same) = ground (arith, h, same)
any_due-mem at (x ∷ ys) y h (Memᴰ.tail m) = any_due-mem at ys y (ground (arith, h)) m

-- The judgement that changes nothing rests on evidence that is healthy and not due.
judge_latest-stays :
    (at : ℕ) (l : List ResourceHealthEvidence) (f : ResourceHealthEvidence)
    → judge_latest at l ≡ ok AccountHealth.stays
    → Memᴰ f l
    → (f.status ≢ session_invalid)
      × (f.status ≢ stale)
      × ((expires : ℕ) × (expiry_of f ≡ ok expires) × (at < expires))
unfolding judge_latest
judge_latest-stays at l f h m = elim (Bool-cases (has session_invalid (map (λ e. e.status) l))) [
  | inl i ↦ absurd (let h = rw (i, judge_latest) at h in cc h)
  | inr valid ↦ elim (Bool-cases (has stale (map (λ e. e.status) l))) [
    | inl i ↦ absurd (let h = rw (valid, i, judge_latest) at h in cc h)
    | inr current ↦
        (let (expiries, found, last) =
            >>=-eq-ok (traverse expiry_of l) _ (rw (valid, current, judge_latest) at h) in
          let (expires, is, there) = traverse-mem expiry_of l f found m in
          elim (Bool-cases (any_due at expiries)) [
            | inl due ↦ absurd (let last = rw due at last in cc last)
            | inr not_due ↦ (
              has-status-mem session_invalid f l valid m,
              has-status-mem stale f l current m,
              (expires, is, any_due-mem at expiries expires not_due there),
            )
          ])
  ]
]

healthy_of_others :
    (s : String) → has s evidence_statuses ≡ true → s ≢ session_invalid → s ≢ stale → s ≡ healthy
unfolding has
healthy_of_others s h invalid is_stale =
    ground (arith, h, eq_iff healthy s, eq_iff stale s, eq_iff session_invalid s)

-- The newest evidence of an account, as one of its pieces attains it.
newest_of :
    (e : ResourceHealthEvidence) (es : List ResourceHealthEvidence) (t : ℕ)
    → max_observed_at e es ≡ ok t
    → ((f : ResourceHealthEvidence) × Memᴰ f (e ∷ es) × (observed_time f ≡ ok t))
      × All (NotNewer t) (e ∷ es)
unfolding max_observed_at
newest_of e es t h =
    let (x, observed, h) = >>=-eq-ok (observed_time e) _ h in
    let (xs, others, last) = >>=-eq-ok (traverse observed_time es) _ h in
    let is : max_time x xs ≡ t = ok_injective last in
    let (first, rest) = max_time-ge x xs in
    subst
      (λ t.
        ((f : ResourceHealthEvidence) × Memᴰ f (e ∷ es) × (observed_time f ≡ ok t))
        × All (NotNewer t) (e ∷ es))
      is
      (
        elim (max_time-attained x es others) [
          | inl i ↦ (e, Memᴰ.head refl, observed ∙ ap ok (sym i))
          | inr (f, m, o) ↦ (f, Memᴰ.tail m, o)
        ],
        ((x, observed, first), All-NotNewer (max_time x xs) es others rest),
      )

pub judge_account-Fresh :
    (at : ℕ) (es : List ResourceHealthEvidence)
    → judge_account at es ≡ ok AccountHealth.stays
    → All (λ e. has e.status evidence_statuses ≡ true) es
    → Fresh at es
unfolding judge_account
judge_account-Fresh at [] h valid = cc
judge_account-Fresh at (e ∷ es) h valid =
    let (t, newest, h) = >>=-eq-ok (max_observed_at e es) _ h in
    let (l, latest, h) = >>=-eq-ok (latest_evidence t (e ∷ es)) _ h in
    let ((f, m, o), all) = newest_of e es t newest in
    let (invalid, is_stale, (expires, is, in_time)) =
      judge_latest-stays at l f h (latest_evidence-mem t (e ∷ es) f latest m o) in
    record {
      proof = f;
      member = m;
      is_healthy = healthy_of_others f.status (All-mem _ (e ∷ es) valid m) invalid is_stale;
      observed = t;
      observed_then = o;
      newest = all;
      expires = expires;
      expires_then = is;
      in_time = in_time;
    }
