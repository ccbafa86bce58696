-- ===== src/Channel/Concurrent/Guarded.antt =====
-- A mutex of a connection (channel.go) and the goroutines that take it in turn.
use zwing.Base.{
  ℕ, ◌≡◌, ◌≢◌, ◌⊎◌, inl, inr, arith, sym, subst, ap, ◌∙◌, Bool, true, false, Bool-cases,
}
use mathlib.Core.Logic.{ite}
use native.Mathlib.Decide.{ℕ_discrete}

abbrev pub update {ℓ} : {A : Type ℓ} → (ℕ → A) → ℕ → A → ℕ → A
update f i a j = ite (ℕ_discrete i j) a (f j)

pub update_same : {A : Type 0} (f : ℕ → A) (i : ℕ) (a : A) → update f i a i ≡ a
update_same f i a = ground arith

module _ {A : Type 0} (inside : A → Bool) where
  -- One goroutine at most is inside, and none when the mutex is free. `fits` is what holds of where
  -- a goroutine stands, and `rest` what holds while the mutex is free.
  pub record IsGuarded (fits : A → Type 0) (rest : Type 0) (locked : Bool) (at : ℕ → A)
      : Type 0 where
    pub alone : (i j : ℕ) → inside (at i) ≡ true → inside (at j) ≡ true → i ≡ j
    pub free : locked ≡ false → (i : ℕ) → inside (at i) ≡ false
    pub held : locked ≡ true → (i : ℕ) × (inside (at i) ≡ true)
    pub fitting : (i : ℕ) → fits (at i)
    pub resting : locked ≡ false → rest

  -- Goroutine `j`, after a step of goroutine `i` to `p`.
  split :
      (at : ℕ → A) (i j : ℕ) (p : A)
      → ((i ≡ j) × (update at i p j ≡ p)) ⊎ ((i ≢ j) × (update at i p j ≡ at j))
  split at i j p = elim (ℕ_discrete i j) [
    | yes same ↦ inl (same, ground arith)
    | no other ↦ inr (other, ground arith)
  ]

  -- The others are outside, so only goroutine `i` can be inside after its step.
  only :
      (at : ℕ → A) (i j : ℕ) (p : A)
      → ((k : ℕ) → i ≢ k → inside (at k) ≡ false)
      → inside (update at i p j) ≡ true
      → i ≡ j
  only at i j p others is = elim (split at i j p) [
    | inl (same, _) ↦ same
    | inr (other, e) ↦ absurd (cc (others j other, is, ap inside e))
  ]

  module _ (fits fits' : A → Type 0) (rest rest' : Type 0) (at : ℕ → A) (i : ℕ) (p : A)
      (out : (a : A) → inside a ≡ false → fits' a) (here : fits' p) where
    -- A step of goroutine `i` while the others are outside.
    step-IsGuarded :
        (locked : Bool)
        → ((k : ℕ) → i ≢ k → inside (at k) ≡ false)
        → (locked ≡ true → inside p ≡ true)
        → (locked ≡ false → (inside p ≡ false) × rest')
        → IsGuarded fits' rest' locked (update at i p)
    step-IsGuarded locked others kept unlocked = record {
      alone = λ j k a b. sym (only at i j p others a) ∙ only at i k p others b;
      free = λ f j. elim (split at i j p) [
        | inl (same, e) ↦ ap inside e ∙ (unlocked f).0
        | inr (other, e) ↦ ap inside e ∙ others j other
      ];
      held = λ f. (i, ap inside (update_same at i p) ∙ kept f);
      fitting = λ j. elim (split at i j p) [
        | inl (same, e) ↦ subst fits' (sym e) here
        | inr (other, e) ↦ subst fits' (sym e) (out (at j) (others j other))
      ];
      resting = λ f. (unlocked f).1;
    }

    outside :
        {locked : Bool}
        → IsGuarded fits rest locked at
        → inside (at i) ≡ true
        → (k : ℕ) → i ≢ k
        → inside (at k) ≡ false
    outside g was k other = elim (Bool-cases (inside (at k))) [
      | inl is ↦ absurd (other (g.alone i k was is))
      | inr not_in ↦ not_in
    ]

    -- The goroutine inside makes a step, and stays inside.
    pub move-IsGuarded :
        {locked : Bool}
        → IsGuarded fits rest locked at
        → inside (at i) ≡ true
        → inside p ≡ true
        → IsGuarded fits' rest' locked (update at i p)
    move-IsGuarded {locked} g was is =
        step-IsGuarded locked (outside g was) (λ _. is) (λ f. absurd (cc (g.free f i, was)))

    -- A goroutine takes the mutex.
    pub lock-IsGuarded :
        {locked : Bool}
        → IsGuarded fits rest locked at
        → locked ≡ false
        → inside p ≡ true
        → IsGuarded fits' rest' true (update at i p)
    lock-IsGuarded g unlocked is =
        step-IsGuarded true (λ k _. g.free unlocked k) (λ _. is) (λ f. absurd (cc f))

    -- The goroutine inside leaves the mutex.
    pub unlock-IsGuarded :
        {locked : Bool}
        → IsGuarded fits rest locked at
        → inside (at i) ≡ true
        → inside p ≡ false
        → rest'
        → IsGuarded fits' rest' false (update at i p)
    unlock-IsGuarded g was is_out done =
        step-IsGuarded false (outside g was) (λ f. absurd (cc f)) (λ f. (is_out, done))
