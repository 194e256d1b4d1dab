-- ===== src/Tests/Instances.antt =====
-- The interfaces met by concrete functions: a buffer that is its readable bytes, and a subscriber
-- that is its set of channels.
use dpush.Base.{
  ℕ, refl, List, [], ◌∷◌, Bool, false, ◌||◌, Text, text_dec, contains, if◌then◌else◌, drop,
}
use dpush.Buffer.{Buffer, search}
use dpush.PubSub.{Subscriber}

abbrev pub list_buffer : Buffer
list_buffer = record {
  Buf = List ℕ;
  readable = λ b. b;
  retrieve = λ n b. drop n b;
  find = λ text b. search text b;
  find_crlf = λ b. search (13 ∷ 10 ∷ []) b;
  find_crlf-search = λ b. refl;
  readable-retrieve = λ n b h. refl;
  find-search = λ x text b. refl;
}

abbrev pub set_subscriber : Subscriber
set_subscriber = record {
  Sub = Text → Bool;
  subscribed = λ s c. s c;
  subscribe = λ cs s c. contains text_dec c cs || s c;
  unsubscribe = λ cs s c. if contains text_dec c cs then false else s c;
  subscribed-subscribe = λ cs s c. refl;
  subscribed-unsubscribe = λ cs s c. refl;
}
