-- ===== src/PubSub/Channels.antt =====
-- Channel names.
use dpush.Base.{
  ◌≡◌, List, [], ◌∷◌, ◌++◌, Text, drop, ap, contains, contains-snoc, text_dec, ite, if_pos, if_neg,
  true, ◌∙◌,
}
use dpush.PubSub.{channel_key}

pub channel_key-injective : (r q : Text) → channel_key r ≡ channel_key q → r ≡ q
unfolding channel_key
channel_key-injective r q e = ap (drop 5) e

pub contains-channel_key :
    (r q : Text) (cs : List Text)
    → contains text_dec (channel_key r) (cs ++ channel_key q ∷ [])
      ≡ ite (text_dec q r) true (contains text_dec (channel_key r) cs)
contains-channel_key r q cs =
    contains-snoc text_dec (channel_key r) (channel_key q) cs ∙ elim (text_dec q r) [
      | yes same ↦ rw (if_pos _ same, if_pos _ (ap channel_key same))
      | no other ↦ rw (if_neg _ other, if_neg _ (λ e. other (channel_key-injective q r e)))
    ]
