-- ===== src/Broadcast/Clean.antt =====
-- Over any events without a failed completion, the writes of the free list have been reset.
use dpush.Base.{
  ℕ, zero, suc, ◌+◌, ◌<◌, ℤ, pos, negsuc, ◌≡◌, ◌≢◌, refl, ap, ◌∙◌, Bool, true, ltb, count, arith,
  Bool-cases, Option-cases, Nat-cases, inl, inr, ℕ_discrete, update, update_self, update_ne,
}
use dpush.Broadcast.{
  PendingWrite, Send, Uring, set_write, reset, release, submit, send_remain, send_of, send_schedul,
  handle_cqe,
}

module _ (q : ℕ) where
  -- A write of the free list has no bytes sent, the others are in use.
  pub record IsClean (u : Uring) : Type 0 where
    pub free : 0 < count q u.free_list → (u.writes q).offset ≡ 0
    pub used : count q u.free_list ≡ 0 → q < u.made → (u.writes q).in_use ≡ true

  -- A write that stands in no free list, if it is the one.
  abbrev pub InHand : ℕ → Uring → Type 0
  InHand p u = p ≡ q → (count q u.free_list ≡ 0) × (q < u.made)

  reset_used : (w : PendingWrite) → w.in_use ≡ true → (reset w).offset ≡ 0
  unfolding reset
  reset_used w e = rw e refl

  pub release-IsClean : (p : ℕ) (u : Uring) → InHand p u → IsClean u → IsClean (release p u)
  unfolding release
  release-IsClean p u hand h = elim (ℕ_discrete p q) [
    | yes same ↦
        let (gone, low) = hand same in
        let its : update ℕ_discrete u.writes p (reset (u.writes p)) q ≡ reset (u.writes q) =
          ap (λ n. update ℕ_discrete u.writes n (reset (u.writes n)) q) same
          ∙ update_self ℕ_discrete u.writes q (reset (u.writes q)) in
        record {
          free = λ there.
              ap (λ (w : PendingWrite). w.offset) its ∙ reset_used (u.writes q) (h.used gone low);
          used = λ none_there. absurd (ground (arith, same, none_there));
        }
    | no other ↦
        let its = update_ne ℕ_discrete u.writes p q (reset (u.writes p)) other in
        record {
          free = λ there.
              ap (λ (w : PendingWrite). w.offset) its ∙ h.free (ground (arith, other, there));
          used = λ none_there low.
              ap (λ (w : PendingWrite). w.in_use) its
              ∙ h.used (ground (arith, other, none_there)) low;
        }
  ]

  send_remain-IsClean : (send : Send) (u : Uring) → IsClean u → IsClean (send_remain send u)
  unfolding send_remain submit
  send_remain-IsClean send u h = elim (Nat-cases u.room) [
    | inl e ↦ rw (e, send_remain) (record { free = h.free; used = h.used })
    | inr (room, e) ↦ rw (e, send_remain) (record { free = h.free; used = h.used })
  ]

  pub send_schedul-IsClean :
      (connected : ℕ → Bool) (p : ℕ) (u : Uring)
      → InHand p u
      → IsClean u
      → IsClean (send_schedul connected p u)
  unfolding send_schedul
  send_schedul-IsClean connected p u hand h =
      elim (Option-cases (send_of connected p (u.writes p))) [
        | inl e ↦ rw (e, send_schedul) (release-IsClean p u hand h)
        | inr (send, e) ↦ elim (Bool-cases (ltb 0 send.remain)) [
          | inr f ↦ rw (e, send_schedul, f) (release-IsClean p u hand h)
          | inl f ↦ rw (e, send_schedul, f) (send_remain-IsClean send u h)
        ]
      ]

  -- A write in hand is set, and stays in use.
  pub set_write-IsClean :
      (p : ℕ) (w : PendingWrite) (u : Uring)
      → InHand p u
      → (p ≡ q → w.in_use ≡ true)
      → (p ≢ q → IsClean u)
      → IsClean (set_write p w u)
  set_write-IsClean p w u hand in_use h = elim (ℕ_discrete p q) [
    | yes same ↦
        let its : update ℕ_discrete u.writes p w q ≡ w =
          ap (λ n. update ℕ_discrete u.writes n w q) same ∙ update_self ℕ_discrete u.writes q w in
        record {
          free = λ there. absurd (omega (arith, there, (hand same).0));
          used = λ none_there low. ap (λ (v : PendingWrite). v.in_use) its ∙ in_use same;
        }
    | no other ↦
        let its = update_ne ℕ_discrete u.writes p q w other in
        record {
          free = λ there. ap (λ (v : PendingWrite). v.offset) its ∙ (h other).free there;
          used = λ none_there low.
              ap (λ (v : PendingWrite). v.in_use) its ∙ (h other).used none_there low;
        }
  ]

  pub handle_cqe-IsClean :
      (connected : ℕ → Bool) (p : ℕ) (res : ℤ) (u : Uring)
      → InHand p u
      → IsClean u
      → IsClean (handle_cqe connected (record { write = p; res = res }) u).1
  unfolding handle_cqe
  handle_cqe-IsClean connected p (negsuc n) u hand h = release-IsClean p u hand h
  handle_cqe-IsClean connected p (pos zero) u hand h = release-IsClean p u hand h
  handle_cqe-IsClean connected p (pos (suc n)) u hand h =
      let w = u.writes p in
      let w' : PendingWrite = record w { offset = w.offset + suc n } in
      send_schedul-IsClean connected p (set_write p w' u) hand (
        set_write-IsClean p w' u hand
          (λ same. ap (λ n. (u.writes n).in_use) same ∙ h.used (hand same).0 (hand same).1)
          (λ other. h))
