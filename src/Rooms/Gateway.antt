-- ===== src/Rooms/Gateway.antt =====
-- The io loops of a gateway and the state that they share. A task runs in one loop from end to end
-- (`runInLoop`); its call of GatewayPubSubManager takes the lock, and no other state is shared, so
-- every interleaving of the loops is a list of whole tasks. The consumer thread's block under the
-- lock is one more step.
use dpush.Base.{
  ℕ, zero, suc, ◌+◌, ◌≤◌, ℤ, ◌≡◌, List, [], ◌∷◌, none, some, Text, set, get_elem?, arith,
  Option-cases, inl, inr,
}
use dpush.PubSub.{PubSub, take_pending}
use dpush.PubSub.Calls.{Call, run, IsPositive}
use dpush.Rooms.{Loop, subscribe_session, close_session}
use dpush.Rooms.Counts.{
  IsTight, occupied, count_in, Balanced, subscribe_session-Balanced, close_session-Balanced,
}

pub record Gateway : Type 0 where
  pub loops : List Loop
  pub shared : PubSub

pub data Task : Type 0 where
  joins : ℕ → Text → Task
  closes : ℤ → ℕ → Task

pub data Event : Type 0 where
  runs : ℕ → Task → Event
  consumes : Event

unfoldable pub perform : Task → Loop → Loop × List Call
perform (joins session r) l = subscribe_session session r l
perform (closes userid session) l = close_session userid session l

unfoldable pub advance : Event → Gateway → Gateway
advance consumes g = record g { shared = take_pending g.shared }
advance (runs k task) g = elim (get_elem? g.loops k) [
  | none ↦ g
  | some l ↦
      let (l', calls) = perform task l in
      record { loops = set g.loops k l'; shared = run calls g.shared }
]

unfoldable pub history : List Event → Gateway → Gateway
history [] g = g
history (e ∷ es) g = history es (advance e g)

-- The number of loops in which the room has members.
abbrev pub loops_with : List Loop → Text → ℕ
loops_with [] r = 0
loops_with (l ∷ ls) r = occupied l r + loops_with ls r

abbrev pub AreTight : List Loop → Type 0
AreTight [] = Unit {0}
AreTight (l ∷ ls) = IsTight l × AreTight ls

pub record IsCounted (g : Gateway) : Type 0 where
  pub tight : AreTight g.loops
  pub positive : (r : Text) → IsPositive (g.shared.global_room_ref_count r)
  pub counted : (r : Text) → count_in g.shared r ≡ loops_with g.loops r

loops_with-set :
    (ls : List Loop) (k : ℕ) (l l' : Loop) (r : Text)
    → get_elem? ls k ≡ some l
    → loops_with (set ls k l') r + occupied l r ≡ loops_with ls r + occupied l' r
loops_with-set [] k l l' r e = cc
loops_with-set (x ∷ ls) zero l l' r e = ground arith
loops_with-set (x ∷ ls) (suc k) l l' r e = omega (arith, loops_with-set ls k l l' r e)

AreTight-get :
    (ls : List Loop) (k : ℕ) {l : Loop} → get_elem? ls k ≡ some l → AreTight ls → IsTight l
AreTight-get [] k e t = cc
AreTight-get (x ∷ ls) zero e t = λ r f. t.0 r (ground arith)
AreTight-get (x ∷ ls) (suc k) e t = AreTight-get ls k e t.1

AreTight-set : (ls : List Loop) (k : ℕ) (l : Loop) → IsTight l → AreTight ls → AreTight (set ls k l)
AreTight-set [] k l h t = tt
AreTight-set (x ∷ ls) zero l h t = (h, t.1)
AreTight-set (x ∷ ls) (suc k) l h t = (t.0, AreTight-set ls k l h t.1)

perform-Balanced :
    (task : Task) (l : Loop) → IsTight l → Balanced l (perform task l).0 (perform task l).1
unfolding perform
perform-Balanced (joins session r) l t = subscribe_session-Balanced session r l t
perform-Balanced (closes userid session) l t = close_session-Balanced userid session l t

occupied-le :
    (ls : List Loop) (k : ℕ) {l : Loop} (r : Text)
    → get_elem? ls k ≡ some l
    → occupied l r ≤ loops_with ls r
occupied-le [] k r e = cc
occupied-le (x ∷ ls) zero {l} r e = let same : x ≡ l = ground arith in rw same (omega arith)
occupied-le (x ∷ ls) (suc k) r e = omega (arith, occupied-le ls k r e)

advance-IsCounted : (e : Event) (g : Gateway) → IsCounted g → IsCounted (advance e g)
unfolding advance take_pending
advance-IsCounted consumes g h = record {
  tight = h.tight;
  positive = h.positive;
  counted = h.counted;
}
advance-IsCounted (runs k task) g h = elim (Option-cases (get_elem? g.loops k)) [
  | inl e ↦ rw (e, advance) h
  | inr (l, e) ↦
      let b = perform-Balanced task l (AreTight-get g.loops k e h.tight) in
      let small = λ (r : Text). occupied-le g.loops k r e in
      rw (e, advance)
        (record {
          tight = AreTight-set g.loops k (perform task l).0 b.tight h.tight;
          positive =
              λ r. (b.books g.shared r (h.positive r) (omega (arith, small r, h.counted r))).0;
          counted = λ r. omega (
            arith,
            (b.books g.shared r (h.positive r) (omega (arith, small r, h.counted r))).1,
            h.counted r,
            loops_with-set g.loops k l (perform task l).0 r e,
          );
        })
]

-- After any interleaving of joins, closes and rounds of the consumer, the count of every room is
-- the number of loops in which it has members.
pub history-IsCounted : (es : List Event) (g : Gateway) → IsCounted g → IsCounted (history es g)
unfolding history
history-IsCounted [] g h = h
history-IsCounted (e ∷ es) g h = history-IsCounted es (advance e g) (advance-IsCounted e g h)
