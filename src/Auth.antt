-- ===== src/Auth.antt =====
-- The accounts, server/src/services/Auth/server/AuthServiceImpl.cc: login, registration and the check of
-- a token.
--
-- The database is the interface `Database`: it is given the text of a statement. `md5` is the hash as
-- text, `salt` what RandomString returned, `token` what libjwt makes of a user id and a name, none where
-- it fails. A letter of a message that is not ASCII stands as its code point.
pub mod Login
use dpush.Base.{
  ℕ, zero, suc, ◌≡◌, ℤ, pos, negsuc, List, [], ◌∷◌, ◌++◌, Option, none, some, Bool, true, false,
  Text, text_eq, c_str, codes, get_or, if◌then◌else◌, Without,
}
use dpush.Handshake.{Stoi, number, no_number, too_large, stoi}

-- The rows of a result, each with its columns.
abbrev pub SqlResult : Type 0
SqlResult = List (List Text)

unfoldable pub select_user : Text → Text
select_user email =
    codes "select id, username, password, salt from users where email = '"
    ++ c_str email
    ++ codes "'"

unfoldable pub insert_user : Text → Text → Text → Text → Text
insert_user username email password_hash salt =
    codes "insert into users(username,email,password,salt) values('"
    ++ (username
        ++ (codes "','"
            ++ (email
                ++ (codes "','" ++ (password_hash ++ (codes "','" ++ (salt ++ codes "')")))))))

unfoldable pub select_name : Text → Text
select_name email = codes "select id, username from users where email='" ++ c_str email ++ codes "'"

-- What the code of an update says of a registration: 1 where it went well.
unfoldable pub register_code : Text → ℤ
register_code res =
    if text_eq res (codes "-1001")
    then negsuc 1
    else if text_eq res (codes "-1002")
    then negsuc 2
    else if text_eq res (codes "-1003")
    then negsuc 0
    else pos 1

unfoldable pub register_message : Text → Text
register_message res =
    if text_eq res (codes "-1001")
    then codes "用户名已存在"
    else if text_eq res (codes "-1002")
    then codes "邮箱已存在"
    else if text_eq res (codes "-1003")
    then codes "未知错误"
    else []

-- No quote and no escape: such a text stands in a statement for itself.
abbrev pub IsPlain : Text → Type 0
IsPlain text = Without b'\'' text × Without b'\\' text

-- A row of the table of users.
pub record User : Type 0 where
  pub id_text : Text
  pub username : Text
  pub email : Text
  pub password : Text
  pub salt : Text

-- The columns that `select_user` reads, of the rows whose email passes a test.
abbrev pub rows_of : (Text → Bool) → List User → SqlResult
rows_of is_email [] = []
rows_of is_email (u ∷ users) =
    let rest = rows_of is_email users in
    if is_email u.email then (u.id_text ∷ u.username ∷ u.password ∷ u.salt ∷ []) ∷ rest else rest

-- `update` answers with the text of its return code, 1 where MySQL has added one row. `same_email` is how
-- MySQL compares two emails.
pub record Database (S : Type 0) : Type 0 where
  pub query : Text → S → SqlResult
  pub update : Text → S → Text × S
  pub users : S → List User
  pub same_email : Text → Text → Bool
  pub same_email_refl : (email : Text) → same_email email email ≡ true
  pub query-select_user :
      (email : Text) (s : S)
      → IsPlain email
      → c_str email ≡ email
      → query (select_user email) s ≡ rows_of (same_email email) (users s)
  pub update-insert_user :
      (username email password_hash salt : Text) (s : S)
      → IsPlain username
      → IsPlain email
      → IsPlain password_hash
      → IsPlain salt
      → (update (insert_user username email password_hash salt) s).0 ≡ codes "1"
      → (id : ℤ) × ((id_text : Text) × ((stoi id_text ≡ number id)
            × (users (update (insert_user username email password_hash salt) s).1
                ≡ users s
                  ++ record {
                    id_text = id_text;
                    username = username;
                    email = email;
                    password = password_hash;
                    salt = salt;
                  }
                    ∷ [])))

-- verifyUserPassword: its result, and the two variables that it sets.
pub record Verified : Type 0 where
  pub ret : ℤ
  pub userid : ℤ
  pub username : Text

module _ (md5 : Text → Text) where
  -- The loop on the rows; none where std::stoi throws.
  unfoldable pub check_rows : Text → SqlResult → ℤ → Text → Option Verified
  check_rows password [] userid username =
      some (record { ret = pos 0; userid = userid; username = username })
  check_rows password (row ∷ rows) userid username =
      let name = get_or row 1 [] in
      elim (stoi (get_or row 0 [])) [
        | number id ↦
            let rest = check_rows password rows id name in
            if text_eq (get_or row 2 []) (md5 (password ++ get_or row 3 []))
            then rest
            else some (record { ret = negsuc 2; userid = id; username = name })
        | no_number ↦ none
        | too_large ↦ none
      ]

  unfoldable pub verify_user_password : SqlResult → Text → Option Verified
  verify_user_password [] password =
      some (record { ret = negsuc 1; userid = negsuc 0; username = [] })
  verify_user_password (row ∷ rows) password = check_rows password (row ∷ rows) (negsuc 0) []

pub record LoginResponse : Type 0 where
  pub code : ℤ
  pub error_msg : Text
  pub token : Text
  pub userid : ℤ
  pub username : Text

abbrev pub no_login : LoginResponse
no_login = record { code = pos 0; error_msg = []; token = []; userid = pos 0; username = [] }

unfoldable pub login_response : (ℤ → Text → Option Text) → Verified → LoginResponse
login_response token v = elim (v.ret) [
  | negsuc (suc zero) ↦ record no_login { code = negsuc 3; error_msg = codes "邮箱不存在" }
  | negsuc (suc (suc zero)) ↦ record no_login { code = negsuc 4; error_msg = codes "密码错误" }
  | negsuc n ↦ no_login
  | pos n ↦ elim (token v.userid v.username) [
    | none ↦ no_login
    | some text ↦ record no_login { token = text; userid = v.userid; username = v.username }
  ]
]

pub record RegisterResponse : Type 0 where
  pub code : ℤ
  pub error_msg : Text

pub record VerifyTokenResponse : Type 0 where
  pub code : ℤ
  pub error_msg : Text
  pub userid : ℤ
  pub username : Text

abbrev pub no_token : VerifyTokenResponse
no_token = record { code = pos 0; error_msg = []; userid = pos 0; username = [] }

-- The last lines of DoVerifyAsync; none where std::stoi throws.
unfoldable pub verify_row : List Text → Option VerifyTokenResponse
verify_row row = elim (stoi (get_or row 0 [])) [
  | number id ↦ some (record no_token { userid = id; username = get_or row 1 [] })
  | no_number ↦ none
  | too_large ↦ none
]

abbrev pub email_error : VerifyTokenResponse
email_error = record no_token { code = negsuc 1; error_msg = codes "email error" }

unfoldable pub verify_rows : SqlResult → Option VerifyTokenResponse
verify_rows [] = some email_error
verify_rows ([] ∷ rows) = some email_error
verify_rows ((id ∷ row) ∷ rows) = verify_row (id ∷ row)

module _ {S : Type 0} (db : Database S) (md5 : Text → Text) where
  -- DoLoginAsync; none where an exception leaves it.
  unfoldable pub do_login : (ℤ → Text → Option Text) → Text → Text → S → Option LoginResponse
  do_login token email password s =
      elim (verify_user_password md5 (db.query (select_user email) s) password) [
        | none ↦ none
        | some v ↦ some (login_response token v)
      ]

  -- DoRegisterAsync
  unfoldable pub do_register : Text → Text → Text → Text → S → RegisterResponse × S
  do_register salt username email password s =
      let (res, after) = db.update (insert_user username email (md5 (password ++ salt)) salt) s in
      (record { code = register_code res; error_msg = register_message res }, after)

  -- DoVerifyAsync, where Redis answers for the token
  unfoldable pub do_verify : Option Text → S → Option VerifyTokenResponse
  do_verify none s = some (record no_token { code = negsuc 0; error_msg = codes "token error" })
  do_verify (some db_email) s = verify_rows (db.query (select_name db_email) s)
