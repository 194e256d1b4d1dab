-- ===== src/Broadcast/Reset.antt =====
-- What the pool of writes gives has no bytes sent.
use dpush.Base.{
  ℕ, ◌+◌, ◌<◌, ◌≡◌, refl, ap, ◌∙◌, subst, count, arith, inl, inr, List-cases, ℕ_discrete, update,
  update_self, update_ne,
}
use dpush.Broadcast.{PendingWrite, Uring, set_write, new_write, get, reset, release}

-- What lies in the free list has been reset.
abbrev pub AreReset : Uring → Type 0
AreReset u = (p : ℕ) → 0 < count p u.free_list → (u.writes p).offset ≡ 0

-- A write that is set with no bytes sent keeps the free list reset.
pub AreReset-set :
    (p : ℕ) (w : PendingWrite) (u : Uring) → w.offset ≡ 0 → AreReset u → AreReset (set_write p w u)
AreReset-set p w u e are_reset j there = elim (ℕ_discrete p j) [
  | yes same ↦
      ap (λ (v : PendingWrite). v.offset)
        (subst (λ k. update ℕ_discrete u.writes p w k ≡ w) same
          (update_self ℕ_discrete u.writes p w))
      ∙ e
  | no other ↦
      ap (λ (v : PendingWrite). v.offset) (update_ne ℕ_discrete u.writes p j w other)
      ∙ are_reset j there
]

reset-offset : (w : PendingWrite) → w.offset ≡ 0 → (reset w).offset ≡ 0
unfolding reset
reset-offset w e = ground (arith, e)

pub release-AreReset :
    (p : ℕ) (u : Uring) → (u.writes p).offset ≡ 0 → AreReset u → AreReset (release p u)
unfolding release
release-AreReset p u e are_reset j there = elim (ℕ_discrete p j) [
  | yes same ↦
      ap (λ (v : PendingWrite). v.offset)
        (subst (λ k. update ℕ_discrete u.writes p (reset (u.writes p)) k ≡ reset (u.writes p)) same
          (update_self ℕ_discrete u.writes p (reset (u.writes p))))
      ∙ reset-offset (u.writes p) e
  | no other ↦
      ap (λ (v : PendingWrite). v.offset)
        (update_ne ℕ_discrete u.writes p j (reset (u.writes p)) other)
      ∙ are_reset j (ground (arith, other, there))
]

-- What the pool gives has no bytes sent.
pub record Given (p : ℕ) (u u' : Uring) : Type 0 where
  pub offset : (u'.writes p).offset ≡ 0
  pub are_reset : AreReset u'
  pub room : u'.room ≡ u.room
  pub taken : u'.taken ≡ u.taken
  pub submitted : u'.submitted ≡ u.submitted
  pub queued : u'.queued ≡ u.queued

pub get-Given : (u : Uring) → AreReset u → Given (get u).0 u (get u).1
unfolding get
get-Given u are_reset = elim (List-cases u.free_list) [
  | inl e ↦
      rw (e, get)
        (record {
          offset =
              ap (λ (v : PendingWrite). v.offset)
                (update_self ℕ_discrete u.writes u.made new_write);
          are_reset = AreReset-set u.made new_write (record u { made = u.made + 1 }) refl are_reset;
          room = refl;
          taken = refl;
          submitted = refl;
          queued = refl;
        })
  | inr (p, (ps, e)) ↦
      rw (e, get)
        (record {
          offset = are_reset p (ground (arith, ap (count p) e));
          are_reset = λ j there. are_reset j (ground (arith, ap (count j) e, there));
          room = refl;
          taken = refl;
          submitted = refl;
          queued = refl;
        })
]
