-- ===== src/Tests/Serving.antt =====
-- Reads of a connection, and responses.
use dpush.Base.{
  ℕ, ◌≡◌, refl, List, [], ◌∷◌, ◌++◌, none, some, false, arith, Text, codes, text_eq, text_dec,
  Without, skip_spaces, trim_end, if◌then◌else◌,
}
use dpush.Http.Request.{
  post, get_header, find_header, add_header, assign_header, less, method_string,
}
use dpush.Http.Context.{
  fresh_context, value, invalid_argument, stoul, stoul_sign, stoul_digits, digits_value, version_of,
}
use dpush.Http.Request.{http11}
use dpush.Http.Rounds.{Field, AreFields}
use dpush.Http.Parse.{parsed_head}
use dpush.Http.Response.{
  Setting, k200, status_code_is, body_is, content_type_is, decimal, decimal_digits,
}
use dpush.Http.Server.{Routes, handle, replied, on_message, get_async}
use dpush.Http.Serving.{refused_line, on_message-handle}
use dpush.Tests.Http.{
  login, login-IsTarget, fields, login-IsTarget_one_line, fields-AreFields, length_two, two_read,
  text,
}
use dpush.Tests.Instances.{list_buffer}

program : Unit {0}
unfolding text_dec get_async get_header find_header add_header assign_header less stoul stoul_sign
    stoul_digits digits_value version_of text_eq method_string decimal_digits skip_spaces trim_end
program = tt

abbrev routes : Routes ℕ
routes = λ p. if text_eq p (codes "/a") then some 5 else none

routed : routes (parsed_head list_buffer post login http11 fields).path ≡ some 5
unfolding program
routed = refl

on_message-handle_example :
    (b' : Text) × (b' ≡ codes "!")
    × (on_message ℕ list_buffer false routes (some fresh_context) (text ++ codes "hi!")
        ≡ replied
            (handle 5
                (record (parsed_head list_buffer post login http11 fields) { body = codes "hi" })
              ∷ [])
            (some fresh_context)
            b')
on_message-handle_example =
    on_message-handle ℕ routes list_buffer post login http11 fields refl tt login-IsTarget
      login-IsTarget_one_line fields-AreFields (text ++ codes "hi!") (codes "hi") (codes "!")
      (codes "2") 5 refl length_two two_read routed

abbrev wrong : List Field
wrong = record { name = codes "content-length"; content = codes "x" } ∷ []

wrong-AreFields : AreFields wrong
wrong-AreFields = (record { no_colon = omega arith; no_return = (omega arith, omega arith) }, tt)

length_wrong :
    get_header (codes "Content-Length") (parsed_head list_buffer post login http11 wrong)
    ≡ some (codes "x")
unfolding program
length_wrong = refl

wrong_refused : stoul (codes "x") ≡ invalid_argument
unfolding program
wrong_refused = refl

abbrev broken : Text
broken = refused_line post (codes "/a") (codes "HTTP/3")

no_version : version_of (codes "HTTP/3") ≡ none
unfolding program
no_version = refl

broken_one_line : Without 13 broken
unfolding program
broken_one_line = omega arith

abbrev settings : List Setting
settings = status_code_is k200 ∷ content_type_is (codes "a/b") ∷ body_is (codes "hi") ∷ []

read_back : stoul (decimal 1024) ≡ value 1024
unfolding program
read_back = refl

printed : decimal 1024 ≡ codes "1024"
unfolding program
printed = refl
