-- ===== src/Dispatch/Offer.antt =====
-- Which gateways a client is offered.
use dpush.Base.{
  ℕ, zero, suc, min, ◌<◌, ◌≤◌, ◌≡◌, refl, sym, ap, ◌∙◌, ℤ, pos, negsuc, List, [], ◌∷◌, ◌++◌, some,
  Bool, true, false, ltb, take, drop, take-append-drop, take_all, leb, length-take, get_elem?,
  length, Text, arith, inl, inr, Bool-cases, if◌then◌else◌,
}
use dpush.Registry.{Cache}
use dpush.Http.Request.{HttpRequest}
use dpush.Dispatch.{GatewayInfo, valid_urls, is_registered, offer_urls, on_dispatch}

-- The order of int.
abbrev pub int_less : ℤ → ℤ → Bool
int_less (pos a) (pos b) = ltb a b
int_less (pos a) (negsuc b) = false
int_less (negsuc a) (pos b) = true
int_less (negsuc a) (negsuc b) = ltb b a

-- No gateway behind one has a smaller score.
abbrev pub HaveNoLess : ℤ → List GatewayInfo → Type 0
HaveNoLess score [] = Unit {0}
HaveNoLess score (g ∷ gateways) = (int_less g.score score ≡ false) × HaveNoLess score gateways

abbrev pub AreByScore : List GatewayInfo → Type 0
AreByScore [] = Unit {0}
AreByScore (g ∷ gateways) = HaveNoLess g.score gateways × AreByScore gateways

-- The gateways with a registered address.
abbrev pub live : (Text → Bool) → List GatewayInfo → List GatewayInfo
live registered [] = []
live registered (g ∷ gateways) =
    let rest = live registered gateways in if registered g.gateway_url then g ∷ rest else rest

abbrev pub urls : List GatewayInfo → List Text
urls [] = []
urls (g ∷ gateways) = g.gateway_url ∷ urls gateways

valid_urls-live :
    (registered : Text → Bool) (count : ℕ) (gateways : List GatewayInfo)
    → valid_urls registered count gateways ≡ urls (take count (live registered gateways))
unfolding valid_urls
valid_urls-live registered zero gateways = refl
valid_urls-live registered (suc count) [] = refl
valid_urls-live registered (suc count) (g ∷ gateways) =
    elim (Bool-cases (registered g.gateway_url)) [
      | inl e ↦ rw e (ap (λ us. g.gateway_url ∷ us) (valid_urls-live registered count gateways))
      | inr e ↦ rw e (valid_urls-live registered (suc count) gateways)
    ]

live-length :
    (registered : Text → Bool) (gateways : List GatewayInfo)
    → length (live registered gateways) ≤ length gateways
live-length registered [] = omega arith
live-length registered (g ∷ gateways) = elim (Bool-cases (registered g.gateway_url)) [
  | inl e ↦ rw e (omega (arith, live-length registered gateways))
  | inr e ↦ rw e (omega (arith, live-length registered gateways))
]

HaveNoLess-live :
    (score : ℤ) (registered : Text → Bool) (gateways : List GatewayInfo)
    → HaveNoLess score gateways
    → HaveNoLess score (live registered gateways)
HaveNoLess-live score registered [] h = tt
HaveNoLess-live score registered (g ∷ gateways) (here, h) =
    elim (Bool-cases (registered g.gateway_url)) [
      | inl e ↦ rw e (here, HaveNoLess-live score registered gateways h)
      | inr e ↦ rw e (HaveNoLess-live score registered gateways h)
    ]

live-AreByScore :
    (registered : Text → Bool) (gateways : List GatewayInfo)
    → AreByScore gateways
    → AreByScore (live registered gateways)
live-AreByScore registered [] h = tt
live-AreByScore registered (g ∷ gateways) (low, h) = elim (Bool-cases (registered g.gateway_url)) [
  | inl e ↦
      rw e (HaveNoLess-live g.score registered gateways low, live-AreByScore registered gateways h)
  | inr e ↦ rw e (live-AreByScore registered gateways h)
]

HaveNoLess-at :
    (score : ℤ) (gateways : List GatewayInfo) (j : ℕ) (k : GatewayInfo)
    → HaveNoLess score gateways
    → get_elem? gateways j ≡ some k
    → int_less k.score score ≡ false
HaveNoLess-at score [] j k h e = cc e
HaveNoLess-at score (g ∷ gateways) zero k (here, h) e = ground (arith, here, e)
HaveNoLess-at score (g ∷ gateways) (suc j) k (here, h) e = HaveNoLess-at score gateways j k h e

HaveNoLess-drop :
    (score : ℤ) (gateways : List GatewayInfo) (n : ℕ)
    → HaveNoLess score gateways
    → HaveNoLess score (drop n gateways)
HaveNoLess-drop score gateways zero h = h
HaveNoLess-drop score [] (suc n) h = tt
HaveNoLess-drop score (g ∷ gateways) (suc n) (here, h) = HaveNoLess-drop score gateways n h

-- No gateway of the front part has a larger score than one behind it.
front-least :
    (gateways : List GatewayInfo) (n i j : ℕ) (g k : GatewayInfo)
    → AreByScore gateways
    → get_elem? (take n gateways) i ≡ some g
    → get_elem? (drop n gateways) j ≡ some k
    → int_less k.score g.score ≡ false
front-least gateways zero i j g k h e f = cc e
front-least [] (suc n) i j g k h e f = cc e
front-least (x ∷ gateways) (suc n) zero j g k (low, h) e f =
    let behind =
      HaveNoLess-at x.score (drop n gateways) j k (HaveNoLess-drop x.score gateways n low) f in
    ground (arith, behind, e)
front-least (x ∷ gateways) (suc n) (suc i) j g k (low, h) e f = front-least gateways n i j g k h e f

take-min :
    (n : ℕ) (xs ys : List GatewayInfo)
    → length xs ≤ length ys
    → take (min n (length ys)) xs ≡ take n xs
take-min n xs ys h = elim (Bool-cases (leb n (length ys))) [
  | inl e ↦ let low : min n (length ys) ≡ n = ground (arith, e) in ap (λ k. take k xs) low
  | inr e ↦
      take_all (min n (length ys)) xs (ground (arith, e, h))
      ∙ sym (take_all n xs (ground (arith, e, h)))
]

-- While some gateway is cached and the cached gateways stand by score, a client is answered with
-- the addresses of at most two gateways, as many as are cached and registered, and no registered
-- gateway that it is not offered has a smaller score than one that it is.
pub on_dispatch-least :
    (prefix : Text) (cache : Cache) (gateways : List GatewayInfo) (req : HttpRequest)
    → 0 < length gateways
    → AreByScore gateways
    → (offered : List GatewayInfo) × ((others : List GatewayInfo) × ((on_dispatch prefix cache
              gateways req
            ≡ some (offer_urls req (urls offered)))
          × ((live (is_registered prefix cache) gateways ≡ offered ++ others)
              × ((length offered ≡ min 2 (length (live (is_registered prefix cache) gateways)))
                  × ((i j : ℕ) (g k : GatewayInfo)
                      → get_elem? offered i ≡ some g
                      → get_elem? others j ≡ some k
                      → int_less k.score g.score ≡ false)))))
unfolding on_dispatch
on_dispatch-least prefix cache [] req some_cached h = absurd (omega (arith, some_cached))
on_dispatch-least prefix cache (x ∷ gateways) req some_cached h =
    let registered = is_registered prefix cache in
    let found = live registered (x ∷ gateways) in
    (
      take 2 found,
      (
        drop 2 found,
        (
          ap (λ us. some (offer_urls req us))
              (valid_urls-live registered (min 2 (length (x ∷ gateways))) (x ∷ gateways)
                ∙ ap urls
                    (take-min 2 found (x ∷ gateways) (live-length registered (x ∷ gateways)))),
          (
            sym (take-append-drop 2 found),
            (
              length-take 2 found,
              λ i j g k. front-least found 2 i j g k (live-AreByScore registered (x ∷ gateways) h),
            ),
          ),
        ),
      ),
    )
