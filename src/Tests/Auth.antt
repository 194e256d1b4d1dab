-- ===== src/Tests/Auth.antt =====
-- A table of users, whose rows are read from the texts of the INSERTs.
use dpush.Base.{
  ◌≡◌, refl, ap, ◌∙◌, ℤ, pos, negsuc, List, [], ◌∷◌, ◌++◌, Option, none, some, Text, text_eq,
  text_eq_refl, c_str, split_at, split_at-append, skip_spaces, Without, codes,
}
use dpush.Http.Context.{digits_value}
use dpush.Handshake.{stoi, stoi_sign, stoi_digits, number}
use dpush.Auth.{
  User, rows_of, Database, check_rows, verify_user_password, no_login, login_response, do_login,
  do_register, do_verify, verify_row, verify_rows, insert_user, select_user, select_name,
  register_code, register_message,
}

program : Unit {0}
unfolding text_eq c_str split_at skip_spaces digits_value stoi stoi_sign stoi_digits check_rows
    verify_user_password login_response do_login do_register do_verify verify_row verify_rows
    insert_user select_user select_name register_code register_message
program = tt

seven : stoi (codes "7") ≡ number (pos 7)
unfolding program
seven = refl

-- The bytes before the next quote, and those behind it.
abbrev quoted : Text → Text × Text
quoted t = elim (split_at b'\'' t) [ none ↦ ([], []) | some p ↦ p ]

quoted-append : (xs ys : Text) → Without b'\'' xs → quoted (xs ++ b'\'' ∷ ys) ≡ (xs, ys)
quoted-append xs ys h = rw (split_at-append b'\'' xs ys h, quoted) refl

abbrev behind : Text → Text
behind t = (quoted (quoted t).1).1

-- What stands behind the opening quote of each value.
abbrev from_salt : Text → Text
from_salt salt = salt ++ codes "')"

abbrev from_hash : Text → Text → Text
from_hash hash salt = hash ++ (codes "','" ++ from_salt salt)

abbrev from_email : Text → Text → Text → Text
from_email email hash salt = email ++ (codes "','" ++ from_hash hash salt)

abbrev from_name : Text → Text → Text → Text → Text
from_name username email hash salt = username ++ (codes "','" ++ from_email email hash salt)

value_of : (x rest : Text) → Without b'\'' x → (quoted (x ++ (codes "','" ++ rest))).0 ≡ x
value_of x rest h = ap (λ p. p.0) (quoted-append x (b',' ∷ b'\'' ∷ rest) h)

next_of : (x rest : Text) → Without b'\'' x → behind (x ++ (codes "','" ++ rest)) ≡ rest
unfolding split_at
next_of x rest h = ap (λ p. (quoted p.1).1) (quoted-append x (b',' ∷ b'\'' ∷ rest) h)

insert-name :
    (username email hash salt : Text)
    → (quoted (insert_user username email hash salt)).1 ≡ from_name username email hash salt
unfolding split_at insert_user
insert-name username email hash salt = refl

-- The row of an INSERT, from what stands behind its first quote.
abbrev user_of : Text → User
user_of t = record {
  id_text = codes "7";
  username = (quoted t).0;
  email = (quoted (behind t)).0;
  password = (quoted (behind (behind t))).0;
  salt = (quoted (behind (behind (behind t)))).0;
}

user_of-row :
    (username email hash salt : Text)
    → Without b'\'' username
    → Without b'\'' email
    → Without b'\'' hash
    → Without b'\'' salt
    → user_of (from_name username email hash salt) ≡ record {
      id_text = codes "7";
      username = username;
      email = email;
      password = hash;
      salt = salt;
    }
user_of-row username email hash salt hu he hh hs =
    let to_email = next_of username (from_email email hash salt) hu in
    let to_hash = ap behind to_email ∙ next_of email (from_hash hash salt) he in
    let to_salt = ap behind to_hash ∙ next_of hash (from_salt salt) hh in
    let its_name = value_of username (from_email email hash salt) hu in
    let its_email = ap (λ t. (quoted t).0) to_email ∙ value_of email (from_hash hash salt) he in
    let its_hash = ap (λ t. (quoted t).0) to_hash ∙ value_of hash (from_salt salt) hh in
    let its_salt =
      ap (λ t. (quoted t).0) to_salt ∙ ap (λ p. p.0) (quoted-append salt (codes ")") hs) in
    λ i. record {
      id_text = codes "7";
      username = its_name i;
      email = its_email i;
      password = its_hash i;
      salt = its_salt i;
    }

abbrev users_of : List Text → List User
users_of [] = []
users_of (sql ∷ sqls) = user_of (quoted sql).1 ∷ users_of sqls

users_of-snoc :
    (sqls : List Text) (sql : Text)
    → users_of (sqls ++ sql ∷ []) ≡ users_of sqls ++ user_of (quoted sql).1 ∷ []
users_of-snoc [] sql = refl
users_of-snoc (x ∷ sqls) sql = ap (λ us. user_of (quoted x).1 ∷ us) (users_of-snoc sqls sql)

-- The email of a SELECT.
abbrev email_in : Text → Text
email_in sql = (quoted (quoted sql).1).0

select-email : (email : Text) → (quoted (select_user email)).1 ≡ c_str email ++ b'\'' ∷ []
unfolding split_at select_user
select-email email = refl

email_in-select :
    (email : Text)
    → Without b'\'' email
    → c_str email ≡ email
    → email_in (select_user email) ≡ email
email_in-select email h whole =
    ap (λ t. (quoted t).0) (select-email email ∙ ap (λ t. t ++ b'\'' ∷ []) whole)
    ∙ ap (λ p. p.0) (quoted-append email [] h)

-- The state is the INSERTs so far.
abbrev table : Database (List Text)
table = record {
  query = λ sql s. rows_of (text_eq (email_in sql)) (users_of s);
  update = λ sql s. (codes "1", s ++ sql ∷ []);
  users = users_of;
  same_email = text_eq;
  same_email_refl = text_eq_refl;
  query-select_user = λ email s h whole.
      ap (λ e. rows_of (text_eq e) (users_of s)) (email_in-select email h.0 whole);
  update-insert_user = λ username email hash salt s hu he hh hs done. (
    pos 7,
    (
      codes "7",
      (
        seven,
        users_of-snoc s (insert_user username email hash salt)
            ∙ ap (λ u. users_of s ++ u ∷ [])
                (ap user_of (insert-name username email hash salt)
                  ∙ user_of-row username email hash salt hu.0 he.0 hh.0 hs.0),
      ),
    ),
  );
}

abbrev token_of : ℤ → Text → Option Text
token_of userid username = some (codes "t")

logged_in :
    do_login table
      (λ x. x)
      token_of
      (codes "a@b")
      (codes "pw")
      (do_register table (λ x. x) (codes "st") (codes "ann") (codes "a@b") (codes "pw") []).1
    ≡ some (record no_login { token = codes "t"; userid = pos 7; username = codes "ann" })
unfolding program
logged_in = refl

-- an unquoted email changes the statement
injected :
    select_user (codes "' or '1'='1")
    ≡ codes "select id, username, password, salt from users where email = '' or '1'='1'"
unfolding program
injected = refl

verified :
    (do_verify table (λ x. x) none []
      ≡ some (record {
        code = negsuc 0;
        error_msg = codes "token error";
        userid = pos 0;
        username = [];
      }))
    × (verify_rows ((codes "7" ∷ codes "ann" ∷ []) ∷ [])
        ≡ some (record { code = pos 0; error_msg = []; userid = pos 7; username = codes "ann" }))
unfolding program
verified = (refl, refl)

abbrev length_hash : Text → Text
length_hash [] = b'0' ∷ []
length_hash (x ∷ []) = b'1' ∷ []
length_hash (x ∷ y ∷ xs) = b'2' ∷ []

-- Bob is there before.
abbrev bob : List Text
bob = insert_user (codes "bob") (codes "b") (codes "h") (codes "k") ∷ []
