-- ===== src/Http/Lines.antt =====
-- The first line of a request, and where the lines end.
use dpush.Base.{
  ℕ, ◌≡◌, refl, ap, ◌∙◌, [], ◌∷◌, ◌++◌, Option, none, some, true, false, Text, codes, text_eq,
  arith, length, split_at, Without, split_at-append, split_at-none, Option-cases, inl, inr,
}
use dpush.Buffer.{search}
use dpush.Http.Request.{
  HttpRequest, Method, invalid, get, post, head, put, delete, is_invalid, method_of, method_string,
  set_method, Version, http10, http11, http20, unknown,
}
use dpush.Http.Context.{process_request_line, version_of, set_target}

abbrev pub crlf : Text
crlf = 13 ∷ 10 ∷ []

-- The first line break stands behind a text that has no carriage return.
pub search-crlf :
    (xs rest : Text) → Without 13 xs → search crlf (xs ++ 13 ∷ 10 ∷ rest) ≡ some (length xs)
unfolding search
search-crlf [] rest h = refl
search-crlf (x ∷ xs) rest h = ground (arith, search-crlf xs rest h.1)

-- The first occurrence of one byte.
pub search-byte :
    (c : ℕ) (xs rest : Text) → Without c xs → search (c ∷ []) (xs ++ c ∷ rest) ≡ some (length xs)
unfolding search
search-byte c [] rest h = ground arith
search-byte c (x ∷ xs) rest h = ground (arith, search-byte c xs rest h.1)

pub Without-append : (c : ℕ) (xs ys : Text) → Without c xs → Without c ys → Without c (xs ++ ys)
Without-append c [] ys h k = k
Without-append c (x ∷ xs) ys h k = (h.0, Without-append c xs ys h.1 k)

-- The target of a request: a path, and a query behind a '?' if there is one.
pub record Target : Type 0 where
  pub path : Text
  pub query : Option Text

abbrev pub target_text : Target → Text
target_text t = elim t.query [ none ↦ t.path | some q ↦ t.path ++ b'?' ∷ q ]

abbrev pub version_text : Version → Text
version_text http10 = codes "HTTP/1.0"
version_text http11 = codes "HTTP/1.1"
version_text http20 = codes "HTTP/2.0"
version_text unknown = []

-- The versions that the parser takes.
abbrev pub IsTaken : Version → Type 0
IsTaken http10 = Unit {0}
IsTaken http11 = Unit {0}
IsTaken http20 = ⊥
IsTaken unknown = ⊥

pub record IsTarget (t : Target) : Type 0 where
  pub path_plain : Without b' ' t.path × Without b'?' t.path
  pub query_plain : (q : Text) → t.query ≡ some q → Without b' ' q

abbrev pub request_line : Method → Target → Version → Text
request_line m t v = method_string m ++ b' ' ∷ (target_text t ++ b' ' ∷ version_text v)

abbrev pub with_line : Method → Target → Version → HttpRequest → HttpRequest
with_line m t v r = record r {
  method = m;
  path = t.path;
  query = elim t.query [ none ↦ r.query | some q ↦ q ];
  version = v;
}

method_of-method_string : (m : Method) → is_invalid m ≡ false → method_of (method_string m) ≡ m
unfolding method_of method_string text_eq
method_of-method_string invalid h = cc
method_of-method_string get h = refl
method_of-method_string post h = refl
method_of-method_string head h = refl
method_of-method_string put h = refl
method_of-method_string delete h = refl

pub method_string-Without : (m : Method) → Without b' ' (method_string m)
unfolding method_string
method_string-Without invalid = omega arith
method_string-Without get = omega arith
method_string-Without post = omega arith
method_string-Without head = omega arith
method_string-Without put = omega arith
method_string-Without delete = omega arith

version_of-version_text : (v : Version) → IsTaken v → version_of (version_text v) ≡ some v
unfolding version_of text_eq
version_of-version_text http10 h = refl
version_of-version_text http11 h = refl
version_of-version_text http20 h = absurd h
version_of-version_text unknown h = absurd h

set_target_lem :
    (p : Text) (q : Option Text) (r : HttpRequest)
    → Without b'?' p
    → set_target (target_text (record { path = p; query = q })) r
      ≡ record r { path = p; query = elim q [ none ↦ r.query | some x ↦ x ] }
unfolding set_target
set_target_lem p none r h = ground (arith, split_at-none b'?' p h)
set_target_lem p (some q) r h = ground (arith, split_at-append b'?' p q h)

target_text-Without : (t : Target) → IsTarget t → Without b' ' (target_text t)
target_text-Without t h = elim (Option-cases t.query) [
  | inl e ↦ rw e h.path_plain.0
  | inr (q, e) ↦
      rw e (Without-append b' ' t.path (b'?' ∷ q) h.path_plain.0 (omega arith, h.query_plain q e))
]

-- The steps of the first line, each by what it finds.
process_steps :
    (line m rest t ver : Text) (v : Version) (r r' : HttpRequest)
    → split_at b' ' line ≡ some (m, rest)
    → set_method m r ≡ some (true, r')
    → split_at b' ' rest ≡ some (t, ver)
    → version_of ver ≡ some v
    → process_request_line line r ≡ some (true, record (set_target t r') { version = v })
unfolding process_request_line
process_steps line m rest t ver v r r' a b c d = ground arith

pub set_method-method_string :
    (m : Method) (r : HttpRequest)
    → is_invalid m ≡ false
    → is_invalid r.method ≡ true
    → set_method (method_string m) r ≡ some (true, record r { method = m })
unfolding set_method
set_method-method_string m r valid unset = rw (unset, method_of-method_string m valid, valid)

-- The line of a method, a target and a version is read as these three, on a request whose method
-- is not set yet.
pub process_request_line-request_line :
    (m : Method) (t : Target) (v : Version) (r : HttpRequest)
    → is_invalid m ≡ false
    → IsTaken v
    → IsTarget t
    → is_invalid r.method ≡ true
    → process_request_line (request_line m t v) r ≡ some (true, with_line m t v r)
process_request_line-request_line m t v r valid taken plain unset =
    process_steps (request_line m t v) (method_string m) (target_text t ++ b' ' ∷ version_text v)
      (target_text t) (version_text v) v r (record r { method = m })
      (split_at-append b' ' (method_string m) _ (method_string-Without m))
      (set_method-method_string m r valid unset)
      (split_at-append b' ' (target_text t) (version_text v) (target_text-Without t plain))
      (version_of-version_text v taken)
    ∙ ap (λ (x : HttpRequest). some (true, record x { version = v }))
        (set_target_lem t.path t.query (record r { method = m }) plain.path_plain.1)
