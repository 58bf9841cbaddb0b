-- ===== src/Server/AccountLaws.antt =====
-- What the accounts and the messages amount to, on a database that keeps SQLite's promises.
use mathlib.Core.List.{Perm, Permᴰ}
use mathlib.Core.List.Perm
use mathlib.Core.List.Permᴰ
use mathlib.Core.List.Permᴰ.{nil, cons, swap, trans}
use mathlib.Core.Logic.{∥∥₁_map}
use sfrpg.Base.{
  ℕ, ◌≡◌, sym, ◌∙◌, ap, inl, inr, Bool, true, false, ◌&&◌, ◌||◌, if◌then◌else◌, some, List, [], ◌∷◌,
  Text, eq_text, eq_text_refl, Bool-cases, arith,
}
use sfrpg.Server.Accounts.{
  MessageRow, UserRow, where_rows, Sqlite, SqliteLaws, answer, hash_password, involves,
  register_user, check_row, authenticate_user, add_message, get_chat_messages,
}

where_rows-Permᴰ {ℓ} :
    {A : Type ℓ} (p : A → Bool) {xs ys : List A}
    → Permᴰ xs ys
    → Permᴰ (where_rows p xs) (where_rows p ys)
where_rows-Permᴰ p nil = nil
where_rows-Permᴰ p (cons {a} {b} e d) = elim (Bool-cases (p a)) [
  | inl q ↦ rw (q, sym (ap p e) ∙ q) (cons e (where_rows-Permᴰ p d))
  | inr q ↦ rw (q, sym (ap p e) ∙ q) (where_rows-Permᴰ p d)
]
where_rows-Permᴰ p (swap {a} {b} {a' = c} {b' = d} {l} e f) = elim (Bool-cases (p a)) [
  | inl q ↦ elim (Bool-cases (p b)) [
    | inl r ↦ rw (q, r, sym (ap p f) ∙ r, sym (ap p e) ∙ q) (swap e f)
    | inr r ↦ rw (q, r, sym (ap p f) ∙ r, sym (ap p e) ∙ q) (cons e (Permᴰ.refl _))
  ]
  | inr q ↦ elim (Bool-cases (p b)) [
    | inl r ↦ rw (q, r, sym (ap p f) ∙ r, sym (ap p e) ∙ q) (cons f (Permᴰ.refl _))
    | inr r ↦ rw (q, r, sym (ap p f) ∙ r, sym (ap p e) ∙ q) (Permᴰ.refl _)
  ]
]
where_rows-Permᴰ p (trans d e) = trans (where_rows-Permᴰ p d) (where_rows-Permᴰ p e)

where_rows-Perm {ℓ} :
    {A : Type ℓ} (p : A → Bool) {xs ys : List A}
    → Perm xs ys
    → Perm (where_rows p xs) (where_rows p ys)
where_rows-Perm p {xs} {ys} h =
    ∥∥₁_map {B = Permᴰ (where_rows p xs) (where_rows p ys)} h (where_rows-Permᴰ p)

module _ {σ : Sqlite} (hash : Text → ℕ) (laws : SqliteLaws σ) where
  open σ use {Db, users, messages, insert_user, select_users}

  abbrev new_user : (email username password : Text) → UserRow
  new_user email username password = record {
    email = email;
    username = username;
    password = hash_password hash password;
  }

  register_inserts :
      (db after : Db) (email username password : Text)
      → register_user σ hash db email username password ≡ (after, true)
      → insert_user db (new_user email username password) ≡ some after
  unfolding register_user
  register_inserts db after email username password e = ground arith

  rows_of_new :
      (db after : Db) (email username password : Text) (rows : List UserRow)
      → register_user σ hash db email username password ≡ (after, true)
      → select_users after (λ u. eq_text u.email email) ≡ some rows
      → rows ≡ new_user email username password ∷ []
  rows_of_new db after email username password rows e sel =
      let row = new_user email username password in
      let (none_before, grown) =
        laws.users-insert db row after (register_inserts db after email username password e) in
      laws.select_users_lem after (λ u. eq_text u.email email) rows row sel
        (grown (λ u. eq_text u.email email) (eq_text_refl email) none_before)

  -- After a registration that succeeded, a login with its email, where the query does not throw, is
  -- decided by the hash of the password alone: with the hash of the registered password it succeeds
  -- and hands over the registered name, with any other it fails and leaves the name as it was.
  pub authenticate_user-register_user :
      (db after : Db) (email username password attempt l_username : Text) (rows : List UserRow)
      → register_user σ hash db email username password ≡ (after, true)
      → select_users after (λ u. eq_text u.email email) ≡ some rows
      → authenticate_user σ hash after email attempt l_username ≡ (
          if eq_text (hash_password hash password) (hash_password hash attempt)
          then answer true username
          else answer false l_username)
  unfolding authenticate_user check_row
  authenticate_user-register_user db after email username password attempt l_username rows e sel =
      rw
        (sel ∙ ap some (rows_of_new db after email username password rows e sel), authenticate_user)

module _ {σ : Sqlite} (laws : SqliteLaws σ) where
  open σ use {Db, messages, insert_message}

  -- A message that was added shows in a chat exactly when both of the chat's users are among its
  -- sender and receiver, and once more than before; the chat's other messages stay. The order of the
  -- rows is left open. The two queries are taken not to throw.
  pub get_chat_messages-add_message :
      (db after : Db) (sender receiver content user other : Text) (old new : List MessageRow)
      → add_message σ db sender receiver content ≡ (after, true)
      → get_chat_messages σ db user other ≡ some old
      → get_chat_messages σ after user other ≡ some new
      → let row : MessageRow = record { sender = sender; receiver = receiver; content = content } in
        let between =
          (eq_text sender user || eq_text receiver user)
          && (eq_text sender other || eq_text receiver other) in
        Perm new (if between then row ∷ old else old)
  unfolding add_message get_chat_messages
  get_chat_messages-add_message db after sender receiver content user other old new added was now =
      let row : MessageRow = record { sender = sender; receiver = receiver; content = content } in
      let chat = λ (r : MessageRow). involves user r && involves other r in
      let grown = where_rows-Perm chat (laws.messages-insert db row after (ground arith)) in
      let after_rows = Perm.trans (laws.select_messages_lem after chat new now) grown in
      let before = Perm.symm (laws.select_messages_lem db chat old was) in
      elim (Bool-cases (chat row)) [
        | inl q ↦
            let more : Perm new (row ∷ where_rows chat (messages db)) = rw q at after_rows in
            rw q (Perm.trans more (Perm.cons row before))
        | inr q ↦
            let same : Perm new (where_rows chat (messages db)) = rw q at after_rows in
            rw q (Perm.trans same before)
      ]
