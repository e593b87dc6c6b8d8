-- ===== src/Race/Sync.antt =====
-- What synchronisation and accesses keep of the clocks.
use mtech.Prelude.{
  ℕ, suc, ◌≤◌, ◌<◌, ◌≡◌, ◌≢◌, refl, ap, ◌∙◌, subst, ◌⊎◌, inl, inr, true, false, ◌||◌, ltb, leb,
  arith, ℕ_discrete, Bool-cases,
}
use mtech.Race.Clocks.{Holder, thread, lock, is_holder, VectorClocks, max_of, unite, tick}

pub is_holder-eq : (h k : Holder) → is_holder h k ≡ true → h ≡ k
is_holder-eq (thread t) (thread u) e = ap thread (ground arith)
is_holder-eq (lock t) (lock u) e = ap lock (ground arith)
is_holder-eq (thread t) (lock l) e = absurd (ground arith)
is_holder-eq (lock l) (thread t) e = absurd (ground arith)

-- An entry of a clock is below the thread's own, unless it is that or of the first frame.
abbrev pub IsBelow : VectorClocks → Holder → ℕ → Type 0
IsBelow c h u = (is_holder (thread u) h || (leb (c h u) 1 || ltb (c h u) (c (thread u) u))) ≡ true

module _ (n : ℕ) (target source : Holder) (c : VectorClocks) where
  pub unite_grows : (h : Holder) (u : ℕ) → c h u ≤ unite n target source c h u
  unfolding unite
  unite_grows h u = elim (Bool-cases (is_holder target h)) [
    | inl e ↦ rw (is_holder-eq target h e) (ground arith)
    | inr e ↦ ground arith
  ]

  -- The entry that is united, or that is not.
  pub unite-cases :
      (h : Holder) (u : ℕ)
      → u < n
      → (unite n target source c h u ≡ max_of (c h u) (c source u))
        ⊎ (unite n target source c h u ≡ c h u)
  unfolding unite
  unite-cases h u below = elim (Bool-cases (is_holder target h)) [
    | inl e ↦ inl (rw (is_holder-eq target h e) (ground arith))
    | inr e ↦ inr (ground arith)
  ]

  unite-IsBelow :
      (h : Holder) (u : ℕ)
      → u < n
      → is_holder (thread u) source ≡ false
      → IsBelow c h u
      → IsBelow c source u
      → IsBelow (unite n target source c) h u
  unite-IsBelow h u below other b b' =
      let own = unite_grows (thread u) u in
      elim (unite-cases h u below) [ inl e ↦ ground arith | inr e ↦ ground arith ]

pub tick_same : (t u : ℕ) (c : VectorClocks) (h : Holder) → t ≢ u → tick t c h u ≡ c h u
unfolding tick
tick_same t u c h ne = ground arith

pub tick_own : (t : ℕ) (c : VectorClocks) → tick t c (thread t) t ≡ suc (c (thread t) t)
unfolding tick
tick_own t c = ground arith

pub tick_other :
    (t u : ℕ) (c : VectorClocks) (h : Holder)
    → is_holder (thread u) h ≡ false
    → tick t c h u ≡ c h u
unfolding tick
tick_other t u c h e = elim (ℕ_discrete t u) [
  | yes same ↦ let e' = ap (λ i. is_holder (thread i) h) same ∙ e in ground arith
  | no ne ↦ ground arith
]

-- The clocks of a detector: a thread's own entry has started, and no other is ahead of it.
pub record AreClocks (n : ℕ) (c : VectorClocks) : Type 0 where
  pub started : (t u : ℕ) → u < n → 1 ≤ c (thread t) u
  pub below : (h : Holder) (u : ℕ) → u < n → IsBelow c h u

pub tick_grows : (t : ℕ) (c : VectorClocks) (h : Holder) (u : ℕ) → c h u ≤ tick t c h u
unfolding tick
tick_grows t c h u = ground arith

module _ (n : ℕ) (target : Holder) (t : ℕ) (c : VectorClocks) (a : AreClocks n c) where
  abbrev united : VectorClocks
  united = unite n target (thread t) c

  give_own : (h : Holder) → t < n → IsBelow (tick t united) h t
  give_own h ht = elim (Bool-cases (is_holder (thread t) h)) [
    | inl own ↦ ground arith
    | inr other ↦
        let same = tick_other t t united h other in
        let more = tick_own t united in
        let grows = unite_grows n target (thread t) c (thread t) t in
        let below = a.below h t ht in
        let started = a.started t t ht in
        elim (unite-cases n target (thread t) c h t ht) [
          | inl e ↦ ground arith
          | inr e ↦ ground arith
        ]
  ]

  give_other : (h : Holder) (u : ℕ) → u < n → t ≢ u → IsBelow (tick t united) h u
  give_other h u hu ne =
      let e = tick_same t u united h ne in
      let e' = tick_same t u united (thread u) ne in
      let other : is_holder (thread u) (thread t) ≡ false = ground arith in
      let below =
        unite-IsBelow n target (thread t) c h u hu other (a.below h u hu)
          (a.below (thread t) u hu) in
      ground arith

  -- What is given away with a tick of the giver.
  pub give-AreClocks : AreClocks n (tick t united)
  give-AreClocks = record {
    started = λ s u h.
        let old = a.started s u h in
        let grows = unite_grows n target (thread t) c (thread s) u in
        let more = tick_grows t united (thread s) u in omega arith;
    below = λ h u hu. elim (ℕ_discrete t u) [
      | yes e ↦ subst (λ i. IsBelow (tick t united) h i) e (give_own h (omega arith))
      | no ne ↦ give_other h u hu ne
    ];
  }

-- What is taken from a lock.
pub take-AreClocks :
    (n : ℕ) (target : Holder) (l : ℕ) (c : VectorClocks)
    → AreClocks n c
    → AreClocks n (unite n target (lock l) c)
take-AreClocks n target l c a = record {
  started = λ s u h.
      let old = a.started s u h in
      let grows = unite_grows n target (lock l) c (thread s) u in omega arith;
  below = λ h u hu.
      unite-IsBelow n target (lock l) c h u hu refl (a.below h u hu) (a.below (lock l) u hu);
}
