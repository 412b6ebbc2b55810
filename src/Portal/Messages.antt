-- ===== src/Portal/Messages.antt =====
-- The notices of the portal (portal/message.go).
use isucon6_final.Common.{
  ℕ, ◌+◌, ◌<◌, ◌≡◌, refl, sym, ap, ◌∙◌, Bool, true, Option, none, some, List, [], ◌∷◌, ◌++◌,
  append_assoc, append-nil, map, String, leb, str_eq, if◌then◌else◌, arith, length,
}
use isucon6_final.Sql.{order_by, insert_row}
use isucon6_final.Db.{World, Db, ok, pure, panics, query, ◌>>=◌, ◌>>◌}
use isucon6_final.Portal.Schema.{Tables, MessageRow, Error, wrapped}
use isucon6_final.Portal.Unguarded.{begin_unchecked, beside, after_statement, commit_unused}

-- `MessageHTML` is the message again, as HTML.
pub record Message : Type 0 where
  pub message : String
  pub kind : String

abbrev pub insert_message : Message → Tables → Tables
insert_message m t = record t {
  messages = t.messages ++ record { id = t.next_message; message = m.message; kind = m.kind } ∷ [];
  next_message = t.next_message + 1;
}

unfoldable pub insert_messages : Bool → List Message → Db Tables Error (Unit {0})
insert_messages begun [] = pure tt
insert_messages begun (m ∷ ms) = do beside begun (insert_message m); insert_messages begun ms

unfoldable pub update_messages : List Message → Db Tables Error (Unit {0})
update_messages ms = do
  begun ← begin_unchecked
  beside begun (λ t. record t { messages = [] })
  insert_messages begun ms
  commit_unused begun

abbrev pub of_row : MessageRow → Message
of_row r = record { message = r.message; kind = r.kind }

unfoldable pub get_messages : Db Tables Error (List Message)
get_messages = query (wrapped "") (λ t _. map of_row (order_by (λ r s. leb r.id s.id) t.messages))

-- The posted form: `kind` and `message` are read at the same places, for every kind; a message that
-- is missing is an index out of range, a panic.
unfoldable pub form_messages : List String → List String → Option (List Message)
form_messages [] messages = some []
form_messages (k ∷ kinds) [] = none
form_messages (k ∷ kinds) (m ∷ messages) = add_message k m (form_messages kinds messages)
  where
    add_message : String → String → Option (List Message) → Option (List Message)
    add_message k m none = none
    add_message k m (some rest) =
        some (if str_eq m "" then rest else record { message = m; kind = k } ∷ rest)

unfoldable pub update_form : Option (List Message) → Db Tables Error (Unit {0})
update_form none = panics
update_form (some ms) = update_messages ms

-- The notices that the page shows, an empty one for the next last. `posted` is the form of a POST.
unfoldable pub post_form : Option (List String × List String) → Db Tables Error (Unit {0})
post_form none = pure tt
post_form (some (kinds, messages)) = update_form (form_messages kinds messages)

unfoldable pub serve_messages : Option (List String × List String) → Db Tables Error (List Message)
serve_messages posted = do
  post_form posted
  ms ← get_messages
  pure (ms ++ record { message = ""; kind = "" } ∷ [])

-- The rows that a list of messages becomes, numbered from `n`.
abbrev numbered_rows : ℕ → List Message → List MessageRow
numbered_rows n [] = []
numbered_rows n (m ∷ ms) =
    record { id = n; message = m.message; kind = m.kind } ∷ numbered_rows (n + 1) ms

order_by-numbered_rows :
    (n : ℕ) (ms : List Message)
    → order_by (λ (r s : MessageRow). leb r.id s.id) (numbered_rows n ms) ≡ numbered_rows n ms
unfolding order_by insert_row
order_by-numbered_rows n [] = refl
order_by-numbered_rows n (m ∷ []) = refl
order_by-numbered_rows n (m ∷ k ∷ ms) = rw (order_by-numbered_rows (n + 1) (k ∷ ms)) ground arith

of_row-numbered_rows : (n : ℕ) (ms : List Message) → map of_row (numbered_rows n ms) ≡ ms
of_row-numbered_rows n [] = refl
of_row-numbered_rows n (m ∷ ms) = ap (λ xs. m ∷ xs) (of_row-numbered_rows (n + 1) ms)

beside-eq :
    (f : Tables → Tables) (w : World Tables)
    → w.faults ≡ []
    → beside true f w ≡ (ok tt, record w { tables = f w.tables })
unfolding beside after_statement ◌>>=◌
beside-eq f w h = ground arith

insert_messages-step :
    (m : Message) (ms : List Message) (w : World Tables)
    → w.faults ≡ []
    → insert_messages true (m ∷ ms) w
      ≡ insert_messages true ms (record w { tables = insert_message m w.tables })
unfolding insert_messages ◌>>=◌
insert_messages-step m ms w h = rw (beside-eq (insert_message m) w h) refl

insert_messages-eq :
    (ms : List Message) (w : World Tables)
    → w.faults ≡ []
    → ((insert_messages true ms w).0 ≡ ok tt)
      × ((insert_messages true ms w).1.faults ≡ [])
      × ((insert_messages true ms w).1.tables.messages
          ≡ w.tables.messages ++ numbered_rows w.tables.next_message ms)
unfolding insert_messages ◌>>=◌
insert_messages-eq [] w h = (refl, h, sym (append-nil w.tables.messages))
insert_messages-eq (m ∷ ms) w h =
    let (done, quiet, rows) =
      insert_messages-eq ms (record w { tables = insert_message m w.tables }) h in
    rw (insert_messages-step m ms w h) (done, quiet, rows ∙ append_assoc w.tables.messages _ _)

update_messages-eq :
    (ms : List Message) (w : World Tables)
    → w.faults ≡ []
    → ((update_messages ms w).0 ≡ ok tt)
      × ((update_messages ms w).1.faults ≡ [])
      × ((update_messages ms w).1.tables.messages ≡ numbered_rows w.tables.next_message ms)
unfolding update_messages begin_unchecked commit_unused ◌>>=◌
update_messages-eq ms w h =
    let empty : Tables → Tables = λ t. record t { messages = [] } in
    let cleared = record w { tables = empty w.tables } in
    let (ended, quiet, rows) = insert_messages-eq ms cleared h in
    let first : beside true empty w ≡ (ok tt, cleared) = beside-eq empty w h in
    (ground arith, ground arith, ground arith)

-- With a driver that does not fail, the notices that `updateMessages` stores are the ones that
-- `getMessages` then returns, in the same order, and none of the earlier ones.
pub update_messages-get_messages :
    (ms : List Message) (w : World Tables)
    → w.faults ≡ []
    → ((update_messages ms >> get_messages) w).0 ≡ ok ms
unfolding get_messages ◌>>=◌
update_messages-get_messages ms w h =
    let (stored, quiet, rows) = update_messages-eq ms w h in
    rw
      (
        stored,
        quiet,
        rows,
        order_by-numbered_rows w.tables.next_message ms,
        of_row-numbered_rows w.tables.next_message ms,
      )
      refl

-- A posted form with fewer messages than kinds is not refused: reading it is an index out of range.
pub form_messages-none :
    (kinds messages : List String)
    → length messages < length kinds
    → form_messages kinds messages ≡ none
unfolding form_messages
form_messages-none [] messages h = absurd (omega arith)
form_messages-none (k ∷ kinds) [] h = refl
form_messages-none (k ∷ kinds) (m ∷ messages) h =
    rw (form_messages-none kinds messages (omega arith)) refl
