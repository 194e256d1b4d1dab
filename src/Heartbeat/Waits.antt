-- ===== src/Heartbeat/Waits.antt =====
-- The wheel between a ping of a session and the tick that closes it.
use native.Mathlib.Nat.{mod-lt, mod-add-mod}
use dpush.Base.{
  ℕ, zero, suc, ◌+◌, ◌-◌, ◌%◌, ◌<◌, ◌≤◌, ◌≡◌, ◌≢◌, refl, sym, ap, ◌∙◌, List, [], ◌∷◌, Bool, true,
  false, ◌==◌, leb, inl, inr, Bool-cases, arith,
}
use dpush.Base.Wrap.{mod_apart, to_place}
use dpush.Heartbeat.{Wheel, held, on_timer_tick, on_message_ping, Event, tick, ping, is_closed}

held-true :
    (n bucket : ℕ) (holds : ℕ → ℕ → Bool) (session : ℕ)
    → bucket < n
    → holds bucket session ≡ true
    → held n holds session ≡ true
unfolding held
held-true zero bucket holds session low h = absurd (omega (arith, low))
held-true (suc n) bucket holds session low h = elim (Bool-cases (bucket == n)) [
  | inl e ↦
      let same : bucket ≡ n = ground (arith, e) in
      let there : holds n session ≡ true = ap (λ b. holds b session) (sym same) ∙ h in
      ground (arith, there)
  | inr e ↦
      let rest = held-true n bucket holds session (ground (arith, e, low)) h in ground (arith, rest)
]

held-false :
    (n : ℕ) (holds : ℕ → ℕ → Bool) (session : ℕ)
    → ((bucket : ℕ) → bucket < n → holds bucket session ≡ false)
    → held n holds session ≡ false
unfolding held
held-false zero holds session h = refl
held-false (suc n) holds session h =
    let here = h n (omega arith) in
    let rest = held-false n holds session (λ b low. h b (omega (arith, low))) in
    ground (arith, here, rest)

abbrev pub ticks : List Event → ℕ
ticks [] = 0
ticks (tick ∷ events) = suc (ticks events)
ticks (ping other ∷ events) = ticks events

-- No ping of the session.
abbrev pub IsSilent : ℕ → List Event → Type 0
IsSilent session [] = Unit {0}
IsSilent session (tick ∷ events) = IsSilent session events
IsSilent session (ping other ∷ events) = (session ≢ other) × IsSilent session events

module _ (size session start : ℕ) where
  -- `k` ticks after the ping: the bucket of the ping holds the session, those passed since do not.
  pub record Waits (k : ℕ) (w : Wheel) : Type 0 where
    pub at : w.current_index ≡ (start + k) % size
    pub newest : w.holds ((start + (size - 1)) % size) session ≡ true
    pub passed : (j : ℕ) → j ≤ k → w.holds ((start + j) % size) session ≡ false

  tick-at :
      (k : ℕ) (w : Wheel)
      → w.current_index ≡ (start + k) % size
      → (w.current_index + 1) % size ≡ (start + suc k) % size
  tick-at k w e =
      let shift : start + k + 1 ≡ start + suc k = omega arith in
      ap (λ i. (i + 1) % size) e ∙ mod-add-mod (start + k) size 1 ∙ ap (λ i. i % size) shift

  tick-Waits :
      (k : ℕ) (w : Wheel) → suc k < size - 1 → Waits k w → Waits (suc k) (on_timer_tick size w).0
  unfolding on_timer_tick
  tick-Waits k w more h =
      let index = (w.current_index + 1) % size in
      let at = tick-at k w h.at in
      let apart : (start + (size - 1)) % size ≢ index = λ e.
        mod_apart size (start + suc k) (start + (size - 1)) (omega (arith, more))
          (omega (arith, more)) (sym (e ∙ at)) in
      record {
        at = at;
        newest = ground (arith, apart, h.newest);
        passed = λ j low. elim (Bool-cases (j == suc k)) [
          | inl e ↦
              let same : j ≡ suc k = ground (arith, e) in
              let here : (start + j) % size ≡ index = ap (λ i. (start + i) % size) same ∙ sym at in
              ground (arith, here)
          | inr e ↦ let old = h.passed j (ground (arith, e, low)) in ground (arith, old)
        ];
      }

  ping-Waits :
      (k other : ℕ) (w : Wheel)
      → session ≢ other
      → Waits k w
      → Waits k (on_message_ping size other w)
  unfolding on_message_ping
  ping-Waits k other w apart h = record {
    at = h.at;
    newest = ground (arith, h.newest, apart);
    passed = λ j low. ground (arith, h.passed j low, apart);
  }

  early-tick :
      (k : ℕ) (w : Wheel) → suc k < size - 1 → Waits k w → (on_timer_tick size w).1 session ≡ false
  unfolding on_timer_tick
  early-tick k w more h =
      let after = tick-Waits k w more h in
      let still : held size (on_timer_tick size w).0.holds session ≡ true =
        held-true size ((start + (size - 1)) % size) (on_timer_tick size w).0.holds session
          (mod-lt (start + (size - 1)) (omega (arith, more))) after.newest in
      ground (arith, still)

  emptied-gone :
      (k : ℕ) (w : Wheel)
      → start < size
      → suc k ≡ size - 1
      → Waits k w
      → (bucket : ℕ) → bucket < size
      → (on_timer_tick size w).0.holds bucket session ≡ false
  unfolding on_timer_tick
  emptied-gone k w inside done h bucket low =
      let (j, (less, there)) = to_place start bucket size low in
      elim (Bool-cases (j == suc k)) [
        | inl e ↦
            let same : suc k ≡ j = ground (arith, e) in
            let here : (w.current_index + 1) % size ≡ bucket =
              tick-at k w h.at ∙ ap (λ i. (start + i) % size) same ∙ there in
            ground (arith, here)
        | inr e ↦
            let old : w.holds bucket session ≡ false =
              ap (λ b. w.holds b session) (sym there)
              ∙ h.passed j (ground (arith, e, less, done)) in
            ground (arith, old)
      ]

  last-tick :
      (k : ℕ) (w : Wheel)
      → start < size
      → suc k ≡ size - 1
      → Waits k w
      → (on_timer_tick size w).1 session ≡ true
  unfolding on_timer_tick
  last-tick k w inside done h =
      let index = (w.current_index + 1) % size in
      let at : index ≡ (start + (size - 1)) % size =
        tick-at k w h.at ∙ ap (λ i. (start + i) % size) done in
      let there : w.holds index session ≡ true = ap (λ b. w.holds b session) at ∙ h.newest in
      let gone : held size (on_timer_tick size w).0.holds session ≡ false =
        held-false size (on_timer_tick size w).0.holds session
          (λ bucket low. emptied-gone k w inside done h bucket low) in
      ground (arith, there, gone)

  pub is_closed-Waits :
      (events : List Event) (k : ℕ) (w : Wheel)
      → start < size
      → k < size - 1
      → IsSilent session events
      → Waits k w
      → is_closed size session events w ≡ leb (size - 1) (k + ticks events)
  unfolding is_closed
  is_closed-Waits [] k w inside more silent h = ground (arith, more)
  is_closed-Waits (ping other ∷ events) k w inside more (apart, silent) h =
      is_closed-Waits events k (on_message_ping size other w) inside more silent
        (ping-Waits k other w apart h)
  is_closed-Waits (tick ∷ events) k w inside more silent h = elim (Bool-cases (suc k == size - 1)) [
    | inl e ↦
        let done : suc k ≡ size - 1 = ground (arith, e) in
        let closes = last-tick k w inside done h in ground (arith, closes, done)
    | inr e ↦
        let early : suc k < size - 1 = ground (arith, e, more) in
        let closes = early-tick k w early h in
        let rest =
          is_closed-Waits events (suc k) (on_timer_tick size w).0 inside early silent
            (tick-Waits k w early h) in
        ground (arith, closes, rest)
  ]
