-- ===== src/Portal/Forms.antt =====
-- The handlers of portal/message.go and portal/proxy.go as they are mounted: what they read of a
-- request before their updates, and what they answer.
use isucon6_final.Common.{Bool, Option, none, some, List, String, if◌then◌else◌}
use isucon6_final.Db.{Db, pure, raise, ◌>>=◌}
use isucon6_final.Portal.Schema.{Tables, Error, wrapped, http}
use isucon6_final.Portal.Messages.{serve_messages}
use isucon6_final.Portal.Proxies.{
  AgentMember, RunInsert, serve_proxy_update, serve_proxy_nginx_conf,
}
use isucon6_final.Portal.Replies.{Reply, messages_page, proxies_text, nginx_servers}

-- `lists` are the values of `kind` and of `message`, none where the form cannot be parsed.
unfoldable pub post_messages : Option (List String × List String) → Db Tables Error Reply
post_messages none = raise (wrapped "")
post_messages (some lists) = do ms ← serve_messages (some lists); pure (messages_page ms)

unfoldable pub show_messages : Db Tables Error Reply
show_messages = do ms ← serve_messages none; pure (messages_page ms)

unfoldable pub messages_handler : Bool → Option (List String × List String) → Db Tables Error Reply
messages_handler is_post lists = if is_post then post_messages lists else show_messages

-- `members` is none where the body cannot be read or is no list of members.
module _ (contains : String → Bool) (run : RunInsert) where
  unfoldable pub post_members : Option (List AgentMember) → Db Tables Error Reply
  post_members none = raise (wrapped "")
  post_members (some members) = do
    addrs ← serve_proxy_update contains run members
    pure (proxies_text addrs)

  unfoldable pub proxy_update_handler : Bool → Option (List AgentMember) → Db Tables Error Reply
  proxy_update_handler is_post members = if is_post then post_members members else raise (http 405)

unfoldable pub nginx_conf_handler : Db Tables Error Reply
nginx_conf_handler = do servers ← serve_proxy_nginx_conf; pure (nginx_servers servers)
