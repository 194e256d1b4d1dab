-- ===== src/Tests/Http.antt =====
-- Requests with and without a body.
use dpush.Base.{
  Without, ◌≡◌, ◌≢◌, refl, List, [], ◌∷◌, ◌++◌, none, some, true, arith, Text, codes, text_eq,
  split_at, skip_spaces, trim_end,
}
use dpush.Buffer.{search, starts_with}
use dpush.Http.Request.{
  get_header, find_header, add_header, assign_header, less, get_query_param, query_param, until_and,
  method_of, set_method, method_string, post, http11,
}
use dpush.Http.Context.{
  fresh_context, parse_request, parse_loop, round, header_round, body_round, request_line_round,
  stoul, stoul_sign, stoul_digits, digits_value, process_request_line, set_target, version_of,
  got_all, returned, no_fuel, value,
}
use dpush.Http.Lines.{Target, IsTarget, request_line}
use dpush.Http.Rounds.{Field, AreFields}
use dpush.Http.Parse.{head_text, parsed_head, parse_request-body}
use dpush.Http.Total.{parse_request-ne-no_fuel}
use dpush.Tests.Instances.{list_buffer}

program : Unit {0}
unfolding parse_request parse_loop round header_round body_round request_line_round stoul stoul_sign
    stoul_digits digits_value process_request_line set_target version_of set_method method_of
    method_string get_header find_header add_header assign_header less get_query_param query_param
    until_and search starts_with text_eq split_at skip_spaces trim_end
program = tt

abbrev pub login : Target
login = record { path = codes "/a"; query = some (codes "token=1") }

pub login-IsTarget : IsTarget login
login-IsTarget = record {
  path_plain = (omega arith, omega arith);
  query_plain = λ q e. ground (arith, e);
}

abbrev pub fields : List Field
fields = record { name = codes "content-length"; content = codes " 2 " } ∷ []

abbrev pub host : List Field
host = record { name = codes "Host"; content = codes "a:80" } ∷ []

abbrev pub text : Text
text = head_text list_buffer post login http11 fields

parsed :
    parse_request list_buffer fresh_context (text ++ codes "hi!")
    ≡ returned true
        (record {
          state = got_all;
          request = record {
            method = post;
            version = http11;
            path = codes "/a";
            query = codes "token=1";
            body = codes "hi";
            headers = (codes "content-length", codes "2") ∷ [];
          };
        })
        (codes "!")
unfolding program
parsed = refl

parse_request-ne-no_fuel_example :
    parse_request list_buffer fresh_context (text ++ codes "hi!") ≢ no_fuel
parse_request-ne-no_fuel_example =
    parse_request-ne-no_fuel list_buffer fresh_context (text ++ codes "hi!")

pub login-IsTarget_one_line : Without 13 (request_line post login http11)
unfolding program
login-IsTarget_one_line = omega arith

pub fields-AreFields : AreFields fields
fields-AreFields = (record { no_colon = omega arith; no_return = (omega arith, omega arith) }, tt)

host-AreFields : AreFields host
host-AreFields = (record { no_colon = omega arith; no_return = (omega arith, omega arith) }, tt)

no_length :
    get_header (codes "Content-Length") (parsed_head list_buffer post login http11 host) ≡ none
unfolding program
no_length = refl

pub length_two :
    get_header (codes "Content-Length") (parsed_head list_buffer post login http11 fields)
    ≡ some (codes "2")
unfolding program
length_two = refl

pub two_read : stoul (codes "2") ≡ value 2
unfolding program
two_read = refl

parse_request-body_example :
    (b' : Text) × (b' ≡ codes "!")
    × (parse_request list_buffer fresh_context (text ++ codes "hi!")
        ≡ returned true
            (record {
              state = got_all;
              request = record (parsed_head list_buffer post login http11 fields) {
                body = codes "hi";
              };
            })
            b')
parse_request-body_example =
    parse_request-body list_buffer post login http11 fields refl tt login-IsTarget
      login-IsTarget_one_line fields-AreFields (text ++ codes "hi!") (codes "hi") (codes "!")
      (codes "2") refl length_two two_read
