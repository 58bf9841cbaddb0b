-- ===== src/SampleDb.antt =====
-- A database in memory, on which the accounts run: two lists of rows.
use mathlib.Core.List.{Perm, perm_append_singleton}
use mathlib.Core.List.Perm
use sfrpg.Base.{
  ◌≡◌, Bool, true, ap, ◌∙◌, subst, inl, inr, Bool-cases, Option, none, some, List, [], ◌∷◌, ◌++◌,
  eq_text, arith,
}
use sfrpg.Server.Accounts.{MessageRow, UserRow, where_rows, Sqlite, SqliteLaws}

abbrev pub Tables : Type 0
Tables = List UserRow × List MessageRow

unfoldable pub insert_unique : Tables → UserRow → Option Tables
insert_unique (users, messages) row =
    elim (where_rows (λ (u : UserRow). eq_text u.email row.email) users) [
      | [] ↦ some (users ++ row ∷ [], messages)
      | u ∷ us ↦ none
    ]

abbrev pub memory : Sqlite
memory = record {
  Db = Tables;
  users = λ db. db.0;
  messages = λ db. db.1;
  insert_user = insert_unique;
  insert_message = λ db row. some (db.0, db.1 ++ row ∷ []);
  select_users = λ db p. some (where_rows p db.0);
  select_messages = λ db p. some (where_rows p db.1);
}

insert_unique_lem :
    (db after : Tables) (row : UserRow)
    → insert_unique db row ≡ some after
    → (where_rows (λ (u : UserRow). eq_text u.email row.email) db.0 ≡ [])
      × (after.0 ≡ db.0 ++ row ∷ [])
unfolding insert_unique
insert_unique_lem db after row e = ground arith

alone :
    (p : UserRow → Bool) (row : UserRow) (us : List UserRow)
    → p row ≡ true
    → where_rows p us ≡ []
    → where_rows p (us ++ row ∷ []) ≡ row ∷ []
alone p row [] h e = rw h
alone p row (u ∷ us) h e = elim (Bool-cases (p u)) [
  | inl q ↦ absurd (ground (arith, e, q))
  | inr q ↦ rw q (alone p row us h (ground (arith, e, q)))
]

pub memory-SqliteLaws : SqliteLaws memory
memory-SqliteLaws = record {
  users-insert = λ db row after e.
      let (fresh, grown) = insert_unique_lem db after row e in
      (fresh, λ p h none_before. ap (where_rows p) grown ∙ alone p row db.0 h none_before);
  messages-insert = λ db row after e.
      subst (λ (ms : List MessageRow). Perm ms (row ∷ db.1))
        (let grown : db.1 ++ row ∷ [] ≡ after.1 = ground arith in grown)
        (perm_append_singleton row db.1);
  select_users_lem = λ db p rows row e one. ground arith;
  select_messages_lem = λ db p rows e.
      subst (λ (ms : List MessageRow). Perm rows ms)
        (let same : rows ≡ where_rows p db.1 = ground arith in same) (Perm.refl rows);
}
