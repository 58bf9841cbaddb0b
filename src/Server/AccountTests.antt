-- ===== src/Server/AccountTests.antt =====
-- Small inputs for the accounts' theorems.
use mathlib.Core.List.{Perm}
use sfrpg.Base.{◌≡◌, refl, true, false, if◌then◌else◌, some, [], ◌∷◌, eq_text, length}
use sfrpg.Server.Accounts.{
  MessageRow, UserRow, answer, hash_password, register_user, authenticate_user, add_message,
  get_chat_messages,
}
use sfrpg.SampleDb.{Tables, insert_unique, memory, memory-SqliteLaws}
use sfrpg.Server.AccountLaws.{authenticate_user-register_user, get_chat_messages-add_message}

abbrev ada : UserRow
ada = record { email = 64 ∷ []; username = 65 ∷ []; password = hash_password length (66 ∷ []) }

abbrev one_user : Tables
one_user = (ada ∷ [], [])

registered : register_user memory length ([], []) (64 ∷ []) (65 ∷ []) (66 ∷ []) ≡ (one_user, true)
unfolding register_user insert_unique
registered = refl

found : memory.select_users one_user (λ u. eq_text u.email (64 ∷ [])) ≡ some (ada ∷ [])
found = refl

authenticate_user-register_user_example :
    authenticate_user memory length one_user (64 ∷ []) (70 ∷ 71 ∷ []) [] ≡ (
      if eq_text (hash_password length (66 ∷ [])) (hash_password length (70 ∷ 71 ∷ []))
      then answer true (65 ∷ [])
      else answer false [])
authenticate_user-register_user_example =
    authenticate_user-register_user length memory-SqliteLaws ([], []) one_user (64 ∷ []) (65 ∷ [])
      (66 ∷ []) (70 ∷ 71 ∷ []) [] (ada ∷ []) registered found

abbrev note : MessageRow
note = record { sender = 65 ∷ []; receiver = 68 ∷ []; content = 104 ∷ [] }

noted : add_message memory one_user (65 ∷ []) (68 ∷ []) (104 ∷ []) ≡ ((ada ∷ [], note ∷ []), true)
unfolding add_message
noted = refl

no_chat : get_chat_messages memory one_user (65 ∷ []) (68 ∷ []) ≡ some []
unfolding get_chat_messages
no_chat = refl

chat : get_chat_messages memory (ada ∷ [], note ∷ []) (65 ∷ []) (68 ∷ []) ≡ some (note ∷ [])
unfolding get_chat_messages
chat = refl

get_chat_messages-add_message_example : Perm (note ∷ []) (note ∷ [])
get_chat_messages-add_message_example =
    get_chat_messages-add_message memory-SqliteLaws one_user (ada ∷ [], note ∷ []) (65 ∷ [])
      (68 ∷ []) (104 ∷ []) (65 ∷ []) (68 ∷ []) [] (note ∷ []) noted no_chat chat
