-- ===== src/Http/Answers.antt =====
-- What a response looks like on the wire, whichever setters made it.
use dpush.Base.{
  append-nil, ℕ, ◌+◌, ◌^◌, ◌≤◌, ◌<◌, ◌≡◌, refl, ap, sym, ◌∙◌, List, [], ◌∷◌, ◌++◌, Bool, false,
  Text, length, append_assoc, arith, skip_spaces,
}
use dpush.Http.Context.{value, stoul, stoul_sign, stoul_digits, digits_value}
use dpush.Http.Decimal.{
  StartsInDigit, StartsInDigit-length, decimal_digits-StartsInDigit, digits_value-decimal_digits,
}
use dpush.Http.Response.{
  HttpResponse, Setting, set, new_response, decimal, append_to_buffer, append_to_head_buffer,
  content_type_line, status_code_is, status_message_is, close_connection_is, content_type_is,
  cookie_is, header_is, body_is,
}

abbrev pub made : List Setting → HttpResponse → HttpResponse
made [] r = r
made (s ∷ ss) r = made ss (set s r)

set-content_type : (s : Setting) (r : HttpResponse) → (set s r).content_type ≡ r.content_type
unfolding set
set-content_type (status_code_is code) r = refl
set-content_type (status_message_is text) r = refl
set-content_type (close_connection_is on) r = refl
set-content_type (content_type_is text) r = refl
set-content_type (cookie_is text) r = refl
set-content_type (header_is key v) r = refl
set-content_type (body_is text) r = refl

made-content_type :
    (ss : List Setting) (r : HttpResponse) → (made ss r).content_type ≡ r.content_type
made-content_type [] r = refl
made-content_type (s ∷ ss) r = made-content_type ss (set s r) ∙ set-content_type s r

head-body :
    (r : HttpResponse) (output : Text)
    → r.content_type ≡ []
    → append_to_buffer r output ≡ append_to_head_buffer r (length r.body) output ++ r.body
unfolding append_to_buffer append_to_head_buffer content_type_line
head-body r output h = rw h (simp append_assoc)

-- The whole response of any sequence of setters is what appendToHeadBuffer writes for the body's
-- size, then the body.
append_to_buffer-append_to_head_buffer :
    (ss : List Setting) (close : Bool) (output : Text)
    → append_to_buffer (made ss (new_response close)) output
      ≡ append_to_head_buffer
          (made ss (new_response close))
          (length (made ss (new_response close)).body)
          output
        ++ (made ss (new_response close)).body
append_to_buffer-append_to_head_buffer ss close output =
    head-body (made ss (new_response close)) output (made-content_type ss (new_response close))

stoul-StartsInDigit : (xs : Text) → StartsInDigit xs → stoul xs ≡ stoul_digits false xs
unfolding stoul stoul_sign skip_spaces StartsInDigit
stoul-StartsInDigit [] h = absurd h
stoul-StartsInDigit (x ∷ xs) h = ground arith

stoul_digits-value :
    (xs : Text) (n count : ℕ)
    → digits_value 0 0 xs ≡ (n, count)
    → 1 ≤ count
    → n < 2 ^ 64
    → stoul_digits false xs ≡ value n
unfolding stoul_digits
stoul_digits-value xs n count e some_digit h = ground arith

-- The number that a response announces as its length is the one that the request parser reads.
stoul-decimal : (n : ℕ) → n < 2 ^ 64 → stoul (decimal n) ≡ value n
unfolding digits_value
stoul-decimal n h =
    let digits = decimal n in
    stoul-StartsInDigit digits (decimal_digits-StartsInDigit 19 n)
    ∙ stoul_digits-value digits n (0 + length digits)
        (ap (digits_value 0 0) (sym (append-nil digits))
          ∙ digits_value-decimal_digits 19 n 0 [] (omega (arith, h)))
        (omega (arith, StartsInDigit-length digits (decimal_digits-StartsInDigit 19 n))) h
