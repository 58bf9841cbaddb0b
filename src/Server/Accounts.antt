-- ===== src/Server/Accounts.antt =====
-- server/Server.cpp: the accounts and the messages, over a SQLite database. The database is a
-- parameter: one function for each statement, `none` where SQLiteCpp throws.
use mathlib.Core.List.{Perm}
use sfrpg.Base.{
  ℕ, ◌≡◌, Bool, true, false, ◌&&◌, ◌||◌, if◌then◌else◌, Option, none, some, List, [], ◌∷◌, Text,
  eq_text, to_string,
}

-- A row of the message table: sender, receiver, content.
pub record MessageRow : Type 0 where
  pub sender : Text
  pub receiver : Text
  pub content : Text

-- A row of the user table.
pub record UserRow : Type 0 where
  pub email : Text
  pub username : Text
  pub password : Text

-- The rows that satisfy a WHERE clause.
abbrev pub where_rows {ℓ} : {A : Type ℓ} → (A → Bool) → List A → List A
where_rows p [] = []
where_rows p (x ∷ xs) = if p x then x ∷ where_rows p xs else where_rows p xs

-- SQLite's tables, and its statements: an insertion, and the selection of the rows that satisfy a
-- condition.
pub record Sqlite : Type 1 where
  pub Db : Type 0
  pub users : Db → List UserRow
  pub messages : Db → List MessageRow
  pub insert_user : Db → UserRow → Option Db
  pub insert_message : Db → MessageRow → Option Db
  pub select_users : Db → (UserRow → Bool) → Option (List UserRow)
  pub select_messages : Db → (MessageRow → Bool) → Option (List MessageRow)

-- What the statements promise where they do not throw. The column `email` is declared UNIQUE, and the
-- rows come in no promised order.
pub record SqliteLaws (σ : Sqlite) : Type 0 where
  pub users-insert :
      (db : σ.Db) (row : UserRow) (after : σ.Db)
      → σ.insert_user db row ≡ some after
      → (where_rows (λ u. eq_text u.email row.email) (σ.users db) ≡ [])
        × ((p : UserRow → Bool)
            → p row ≡ true
            → where_rows p (σ.users db) ≡ []
            → where_rows p (σ.users after) ≡ row ∷ [])
  pub messages-insert :
      (db : σ.Db) (row : MessageRow) (after : σ.Db)
      → σ.insert_message db row ≡ some after
      → Perm (σ.messages after) (row ∷ σ.messages db)
  pub select_users_lem :
      (db : σ.Db) (p : UserRow → Bool) (rows : List UserRow) (row : UserRow)
      → σ.select_users db p ≡ some rows
      → where_rows p (σ.users db) ≡ row ∷ []
      → rows ≡ row ∷ []
  pub select_messages_lem :
      (db : σ.Db) (p : MessageRow → Bool) (rows : List MessageRow)
      → σ.select_messages db p ≡ some rows
      → Perm rows (where_rows p (σ.messages db))

-- The end of authenticateUser: an answer with the out parameter, or the end of a function that
-- returns a value with no return statement.
pub data Authenticated : Type 0 where
  answer : Bool → (l_username : Text) → Authenticated
  falls_off : Authenticated

-- Server::hashPassword, where `hash` is std::hash.
unfoldable pub hash_password : (Text → ℕ) → Text → Text
hash_password hash l_password = to_string (hash l_password)

-- `WHERE (sender = ? OR receiver = ?)`
abbrev pub involves : Text → MessageRow → Bool
involves user row = eq_text row.sender user || eq_text row.receiver user

module _ (σ : Sqlite) (hash : Text → ℕ) where
  open σ use {Db, insert_user, insert_message, select_users, select_messages}

  unfoldable pub register_user : Db → (l_email l_username l_password : Text) → Db × Bool
  unfolding hash_password
  register_user db l_email l_username l_password =
      elim (insert_user db (record {
        email = l_email;
        username = l_username;
        password = hash_password hash l_password;
      })) [ none ↦ (db, false) | some after ↦ (after, true) ]

  -- The first row decides; an exception is an answer too.
  unfoldable pub check_row : Text → Text → List UserRow → Authenticated
  check_row hashed l_username [] = falls_off
  check_row hashed l_username (row ∷ rows) =
      if eq_text row.password hashed then answer true row.username else answer false l_username

  unfoldable pub authenticate_user : Db → (l_email l_password l_username : Text) → Authenticated
  unfolding hash_password check_row
  authenticate_user db l_email l_password l_username =
      elim (select_users db (λ u. eq_text u.email l_email)) [
        | none ↦ answer false l_username
        | some rows ↦ check_row (hash_password hash l_password) l_username rows
      ]

module _ (σ : Sqlite) where
  open σ use {Db, insert_message, select_messages}

  unfoldable pub add_message : Db → (l_sender l_receiver l_content : Text) → Db × Bool
  add_message db l_sender l_receiver l_content =
      elim (insert_message db
        (record { sender = l_sender; receiver = l_receiver; content = l_content })) [
          | none ↦ (db, false)
          | some after ↦ (after, true)
        ]

  -- `none` is the null pointer.
  unfoldable pub get_messages_for_user : Db → Text → Option (List MessageRow)
  get_messages_for_user db l_username = select_messages db (involves l_username)

  unfoldable pub get_chat_messages : Db → Text → Text → Option (List MessageRow)
  get_chat_messages db l_first_user l_second_user =
      select_messages db (λ row. involves l_first_user row && involves l_second_user row)
