-- ===== src/Chat/Redis.antt =====
-- The Redis commands that the Logic service gives, as an interface with their documented behaviour:
-- SADD answers whether the member is new, INCR counts a key up by one, and a pipeline of XADD, PUBLISH
-- and GET changes no set and no counter.
use dpush.Base.{ℕ, ◌+◌, ◌≡◌, List, Option, Bool, true, not, Text, text_dec, ite}

pub data Command : Type 0 where
  xadd : Text → Text → Text → Command
  publish : Text → Text → Command
  get : Text → Command

pub record Redis (S : Type 0) : Type 0 where
  pub sadd : Text → Text → S → Bool × S
  pub incr : Text → S → ℕ × S
  -- A pipeline: its replies to the commands, or none where an Error is thrown.
  pub exec : List Command → S → Option (List (Option Text)) × S
  pub is_member : Text → Text → S → Bool
  pub counter : Text → S → ℕ
  pub sadd_new : (k m : Text) (s : S) → (sadd k m s).0 ≡ not (is_member k m s)
  pub sadd_member : (k m : Text) (s : S) → is_member k m (sadd k m s).1 ≡ true
  pub sadd_keeps :
      (k m j n : Text) (s : S) → is_member j n s ≡ true → is_member j n (sadd k m s).1 ≡ true
  pub sadd_counter : (k m j : Text) (s : S) → counter j (sadd k m s).1 ≡ counter j s
  pub incr_reply : (k : Text) (s : S) → (incr k s).0 ≡ counter k s + 1
  pub incr_counter :
      (k j : Text) (s : S)
      → counter j (incr k s).1 ≡ ite (text_dec k j) (counter j s + 1) (counter j s)
  pub incr_keeps : (k j n : Text) (s : S) → is_member j n (incr k s).1 ≡ is_member j n s
  pub exec_keeps :
      (cs : List Command) (j n : Text) (s : S) → is_member j n (exec cs s).1 ≡ is_member j n s
  pub exec_counter : (cs : List Command) (j : Text) (s : S) → counter j (exec cs s).1 ≡ counter j s
