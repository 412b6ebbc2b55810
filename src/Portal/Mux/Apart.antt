-- ===== src/Portal/Mux/Apart.antt =====
-- The handlers that change messages, proxies and teams keep the queue valid.
use isucon6_final.Common.{◌≡◌, refl, Bool, true, false, Option, none, some, List, [], ◌∷◌, String}
use isucon6_final.Db.{Result, ok, err, panic, exec}
use isucon6_final.Db.Keeps.{
  Keeps, Keeps-pure, Keeps-raise, Keeps-exec, Keeps-if, Keeps-attempt, Keeps-bind, Keeps-begin,
  Keeps-sleep, keeps_rules,
}
use isucon6_final.Db.Reads.{Reads-Keeps}
use isucon6_final.Portal.Schema.{Tables, Error, wrapped}
use isucon6_final.Portal.Contest.{ContestStatus, not_started, started, ended}
use isucon6_final.Portal.Queue.Invariant.{IsValid}
use isucon6_final.Portal.Messages.{
  Message, insert_message, insert_messages, update_messages, form_messages, update_form, post_form,
  get_messages, serve_messages,
}
use isucon6_final.Portal.Unguarded.{begin_unchecked, after_statement, beside, commit_unused}
use isucon6_final.Portal.Proxies.{
  AgentMember, RunInsert, insert_text, inserted, proxy_addrs, add_proxies, after_insert,
  insert_proxies, replace_proxies, update_proxies, serve_proxy_update,
}
use isucon6_final.Portal.Replies.{Team}
use isucon6_final.Portal.Sessions.{Setup, Visit}
use isucon6_final.Portal.Sessions.Reading.{contest_status-Reads, load_team_from_session-Reads}
use isucon6_final.Portal.Pages.{
  is_bad_address, update_teams, notify_proxy, save_team, update_loaded, update_posted, update_open,
  update_in, serve_update_team,
}
use isucon6_final.Portal.Mux.Reading.{show_messages-Reads}
use isucon6_final.Portal.Forms.{post_messages, messages_handler, post_members, proxy_update_handler}

-- A change of what is no part of the queue.
abbrev Apart : (Tables → Tables) → Type 0
Apart g = (t : Tables) → ((g t).queues ≡ t.queues) × ((g t).next_queue ≡ t.next_queue)

Apart-IsValid : (g : Tables → Tables) (t : Tables) → Apart g → IsValid t → IsValid (g t)
Apart-IsValid g t k v =
    let (rows, next) = k t in
    record { fresh = rw (rows, next) v.fresh; unique = rw rows v.unique; single = rw rows v.single }

statement-IsValid :
    (e : Error) (g : Tables → Tables) → Apart g → Keeps IsValid (exec e (λ t _. (tt {0}, g t)))
statement-IsValid e g k = Keeps-exec e _ (λ t n. Apart-IsValid g t k)

begin_unchecked-IsValid : Keeps IsValid begin_unchecked
unfolding begin_unchecked
begin_unchecked-IsValid = search (keeps_rules, Keeps-begin)

after_statement-IsValid :
    (begun : Bool) (r : Result Error (Unit {0})) → Keeps IsValid (after_statement begun r)
unfolding after_statement
after_statement-IsValid begun (ok u) = search keeps_rules
after_statement-IsValid true (err e) = search keeps_rules
after_statement-IsValid false (err e) = search keeps_rules
after_statement-IsValid begun panic = search keeps_rules

beside-IsValid : (begun : Bool) (g : Tables → Tables) → Apart g → Keeps IsValid (beside begun g)
unfolding beside
beside-IsValid begun g k =
    Keeps-bind _ _ (Keeps-attempt _ (statement-IsValid _ g k)) (after_statement-IsValid begun)

commit_unused-IsValid : (begun : Bool) → Keeps IsValid (commit_unused begun)
unfolding commit_unused
commit_unused-IsValid true = statement-IsValid _ (λ t. t) (λ t. (refl, refl))
commit_unused-IsValid false = search keeps_rules

insert_messages-IsValid :
    (begun : Bool) (ms : List Message) → Keeps IsValid (insert_messages begun ms)
unfolding insert_messages
insert_messages-IsValid begun [] = search keeps_rules
insert_messages-IsValid begun (m ∷ ms) =
    Keeps-bind _ _ (beside-IsValid begun (insert_message m) (λ t. (refl, refl)))
      (λ _. insert_messages-IsValid begun ms)

update_messages-IsValid : (ms : List Message) → Keeps IsValid (update_messages ms)
unfolding update_messages
update_messages-IsValid ms = Keeps-bind _ _ begin_unchecked-IsValid λ begun.
    Keeps-bind _ _ (beside-IsValid begun _ (λ t. (refl, refl)))
      λ _. Keeps-bind _ _ (insert_messages-IsValid begun ms) λ _. commit_unused-IsValid begun

update_form-IsValid : (ms : Option (List Message)) → Keeps IsValid (update_form ms)
unfolding update_form
update_form-IsValid none = search keeps_rules
update_form-IsValid (some ms) = update_messages-IsValid ms

post_messages-IsValid :
    (lists : Option (List String × List String)) → Keeps IsValid (post_messages lists)
unfolding post_messages serve_messages post_form get_messages
post_messages-IsValid none = search keeps_rules
post_messages-IsValid (some (kinds, messages)) =
    Keeps-bind _ _
      (Keeps-bind _ _ (update_form-IsValid (form_messages kinds messages)) λ _. search keeps_rules)
      λ _. Keeps-pure _

pub messages_handler-IsValid :
    (post : Bool) (lists : Option (List String × List String))
    → Keeps IsValid (messages_handler post lists)
unfolding messages_handler
messages_handler-IsValid post lists =
    Keeps-if post _ _ (λ _. post_messages-IsValid lists) (λ _. Reads-Keeps _ _ show_messages-Reads)

add_proxies-IsValid :
    (run : RunInsert) (addrs : List String) (t : Tables)
    → IsValid t
    → IsValid (add_proxies run addrs t).1
add_proxies-IsValid run addrs t v = after (run (insert_text addrs) t)
  where
    after : (rows : Option (List String)) → IsValid (inserted rows t).1
    after none = v
    after (some rows) = Apart-IsValid (λ u. record u { proxies = rows }) t (λ u. (refl, refl)) v

after_insert-IsValid : (begun : Bool) (r : Result Error Bool) → Keeps IsValid (after_insert begun r)
unfolding after_insert
after_insert-IsValid begun (ok true) = after_statement-IsValid begun (err (wrapped ""))
after_insert-IsValid begun (ok false) = search keeps_rules
after_insert-IsValid begun (err e) = after_statement-IsValid begun (err e)
after_insert-IsValid begun panic = search keeps_rules

insert_proxies-IsValid :
    (run : RunInsert) (begun : Bool) (addrs : List String)
    → Keeps IsValid (insert_proxies run begun addrs)
unfolding insert_proxies
insert_proxies-IsValid run begun addrs =
    Keeps-bind _ _ (Keeps-attempt _ (Keeps-exec _ _ (λ t n. add_proxies-IsValid run addrs t)))
      (after_insert-IsValid begun)

update_proxies-IsValid :
    (run : RunInsert) (addrs : List String) → Keeps IsValid (update_proxies run addrs)
unfolding update_proxies replace_proxies
update_proxies-IsValid run [] = search keeps_rules
update_proxies-IsValid run (a ∷ addrs) = Keeps-bind _ _ begin_unchecked-IsValid λ begun.
    Keeps-bind _ _ (beside-IsValid begun _ (λ t. (refl, refl))) λ _.
      Keeps-bind _ _ (insert_proxies-IsValid run begun (a ∷ addrs))
        λ _. Keeps-bind _ _ (commit_unused-IsValid begun) λ _. Keeps-pure _

module _ (contains : String → Bool) (run : RunInsert) where
  post_members-IsValid :
      (members : Option (List AgentMember)) → Keeps IsValid (post_members contains run members)
  unfolding post_members serve_proxy_update
  post_members-IsValid none = search keeps_rules
  post_members-IsValid (some members) =
      Keeps-bind _ _ (update_proxies-IsValid run (proxy_addrs contains members)) λ _. Keeps-pure _

  pub proxy_update_handler-IsValid :
      (post : Bool) (members : Option (List AgentMember))
      → Keeps IsValid (proxy_update_handler contains run post members)
  unfolding proxy_update_handler
  proxy_update_handler-IsValid post members =
      Keeps-if post _ _ (λ _. post_members-IsValid members) (λ _. Keeps-raise _)

module _ (is_ipv4 : String → Bool) (f : Setup) (v : Visit) (instance_name ip_address : String) where
  update_loaded-IsValid :
      (team : Option Team) → Keeps IsValid (update_loaded is_ipv4 instance_name ip_address team)
  unfolding update_loaded save_team notify_proxy
  update_loaded-IsValid none = search keeps_rules
  update_loaded-IsValid (some team) =
      Keeps-if (is_bad_address is_ipv4 ip_address) _ _ (λ _. Keeps-raise _)
        (λ _.
          Keeps-bind _ _
            (statement-IsValid _ (update_teams team.id instance_name ip_address)
              (λ t. (refl, refl)))
            λ _.
              Keeps-bind _ _ (statement-IsValid _ (λ t. t) (λ t. (refl, refl)))
                λ _. Keeps-bind _ _ (Keeps-sleep _) λ _. Keeps-pure _)

  update_open-IsValid : Keeps IsValid (update_open is_ipv4 f v instance_name ip_address)
  unfolding update_open update_posted
  update_open-IsValid =
      Keeps-if v.is_post _ _
        (λ _.
          Keeps-bind _ _ (Reads-Keeps _ _ (load_team_from_session-Reads f v)) update_loaded-IsValid)
        (λ _. Keeps-raise _)

  update_in-IsValid :
      (s : ContestStatus) → Keeps IsValid (update_in is_ipv4 f v instance_name ip_address s)
  unfolding update_in
  update_in-IsValid ended = search keeps_rules
  update_in-IsValid not_started = update_open-IsValid
  update_in-IsValid started = update_open-IsValid

  pub serve_update_team-IsValid :
      Keeps IsValid (serve_update_team is_ipv4 f v instance_name ip_address)
  unfolding serve_update_team
  serve_update_team-IsValid =
      Keeps-bind _ _ (Reads-Keeps _ _ (contest_status-Reads f)) update_in-IsValid
