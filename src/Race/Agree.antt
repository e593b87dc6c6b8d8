-- ===== src/Race/Agree.antt =====
-- A frame that the detector keeps and the number of the access agree on who knows of it.
use mtech.Prelude.{ℕ, suc, ◌≤◌, ◌<◌, ◌≡◌, ◌⊎◌, inl, inr, leb, arith, Bool-cases, dec_lt}
use mtech.Race.Clocks.{Holder, thread, is_holder, VectorClocks, unite, tick}
use mtech.Race.Sync.{
  AreClocks, is_holder-eq, tick_other, tick_own, tick_grows, unite_grows, unite-cases,
}

-- No holder knows of more accesses of a thread than the thread itself.
abbrev pub Known : ℕ → VectorClocks → Type 0
Known n f = (h : Holder) (u : ℕ) → u < n → f h u ≤ f (thread u) u

pub unite-Known :
    (n : ℕ) (target source : Holder) (f : VectorClocks)
    → Known n f
    → Known n (unite n target source f)
unite-Known n target source f k h u hu =
    let own = unite_grows n target source f (thread u) u in
    let from = k source u hu in
    let old = k h u hu in
    elim (unite-cases n target source f h u hu) [ inl e ↦ ground arith | inr e ↦ ground arith ]

pub tick-Known : (n t : ℕ) (f : VectorClocks) → Known n f → Known n (tick t f)
tick-Known n t f k h u hu =
    let old = k h u hu in
    let own = tick_grows t f (thread u) u in
    elim (Bool-cases (is_holder (thread u) h)) [
      | inl e ↦ rw (← is_holder-eq (thread u) h e) (omega arith)
      | inr e ↦ let same = tick_other t u f h e in omega arith
    ]

-- The frame `k` of a thread `u` is the first one, or those that know of it are those that know of the
-- access with the number `m`.
abbrev pub Agree : VectorClocks → VectorClocks → ℕ → ℕ → ℕ → Type 0
Agree c f u k m = (k ≤ 1) ⊎ ((m ≤ f (thread u) u) × ((h : Holder) → leb k (c h u) ≡ leb m (f h u)))

module _ (c f : VectorClocks) (u k m : ℕ) where
  pub unite-Agree :
      (n : ℕ) (target source : Holder)
      → u < n
      → Agree c f u k m
      → Agree (unite n target source c) (unite n target source f) u k m
  unfolding unite
  unite-Agree n target source hu (inl first) = inl first
  unite-Agree n target source hu (inr (own, same)) = inr (
    (let grows = unite_grows n target source f (thread u) u in omega arith),
    (λ h. united h (same h) (same source)),
  )
    where
      united :
          (h : Holder)
          → leb k (c h u) ≡ leb m (f h u)
          → leb k (c source u) ≡ leb m (f source u)
          → leb k (unite n target source c h u) ≡ leb m (unite n target source f h u)
      united h e e' = elim (Bool-cases (is_holder target h)) [
        | inl here ↦ rw (is_holder-eq target h here) (ground arith)
        | inr other ↦ ground arith
      ]

  pub tick_clock-Agree : (t : ℕ) → Agree c f u k m → Agree (tick t c) f u k m
  tick_clock-Agree t (inl first) = inl first
  tick_clock-Agree t (inr (own, same)) = inr (own, (λ h. ticked h (same h)))
    where
      ticked : (h : Holder) → leb k (c h u) ≡ leb m (f h u) → leb k (tick t c h u) ≡ leb m (f h u)
      ticked h e = elim (Bool-cases (is_holder (thread u) h)) [
        | inl here ↦ rw (← is_holder-eq (thread u) h here) (
            let at_own = same (thread u) in let grows = tick_grows t c (thread u) u in ground arith)
        | inr other ↦ let unchanged = tick_other t u c h other in ground arith
      ]

  pub tick_seen-Agree : (t : ℕ) → Agree c f u k m → Agree c (tick t f) u k m
  tick_seen-Agree t (inl first) = inl first
  tick_seen-Agree t (inr (own, same)) =
      inr ((let grows = tick_grows t f (thread u) u in omega arith), (λ h. ticked h (same h)))
    where
      ticked : (h : Holder) → leb k (c h u) ≡ leb m (f h u) → leb k (c h u) ≡ leb m (tick t f h u)
      ticked h e = elim (Bool-cases (is_holder (thread u) h)) [
        | inl here ↦ rw (← is_holder-eq (thread u) h here) (
            let at_own = same (thread u) in let grows = tick_grows t f (thread u) u in ground arith)
        | inr other ↦ let unchanged = tick_other t u f h other in ground arith
      ]

-- A new access in the current frame.
pub new-Agree :
    (n t : ℕ) (c f : VectorClocks)
    → t < n
    → AreClocks n c
    → Known n f
    → Agree c (tick t f) t (c (thread t) t) (suc (f (thread t) t))
new-Agree n t c f ht a k = elim (dec_lt 1 (c (thread t) t)) [
  | no first ↦ inl (omega arith)
  | yes later ↦ inr (
    (let own = tick_own t f in omega arith),
    (λ h. elim (Bool-cases (is_holder (thread t) h)) [
      | inl here ↦ rw (← is_holder-eq (thread t) h here) (let own = tick_own t f in ground arith)
      | inr other ↦
          let unchanged = tick_other t t f h other in
          let below = a.below h t ht in let known = k h t ht in ground arith
    ]),
  )
]
