-- ===== src/Portal/Proxies.antt =====
-- The proxies that the benchmarker goes through (portal/proxy.go). The addresses are ordered by the
-- collation of the database, and the text of a number is strconv.Itoa's: both are parameters.
use isucon6_final.Common.{
  ℕ, ◌+◌, ◌≡◌, refl, map, Bool-cases, inl, inr, Bool, true, false, ◌&&◌, ◌||◌, Option, none, some,
  List, [], ◌∷◌, ◌++◌, String, ◌==◌, str_eq, if◌then◌else◌, text_append,
}
use isucon6_final.Sql.{order_by}
use isucon6_final.Db.{
  World, Db, Result, ok, err, panic, pure, panics, exec, attempt, query, ◌>>=◌, ◌>>◌,
}
use isucon6_final.Portal.Schema.{Tables, TeamRow, Error, wrapped}
use isucon6_final.Portal.Unguarded.{begin_unchecked, beside, after_statement, commit_unused}

pub record AgentMember : Type 0 where
  pub name : String
  pub addr : String
  pub status : ℕ

-- `contains` is strings.Contains(name, "proxy").
abbrev pub is_proxy : (String → Bool) → AgentMember → Bool
is_proxy contains m = (m.status == 1) && contains m.name

abbrev pub quoted : String → String
quoted addr = text_append ("('" ∷ addr ∷ "')" ∷ [])

unfoldable pub proxy_addrs : (String → Bool) → List AgentMember → List String
proxy_addrs contains [] = []
proxy_addrs contains (m ∷ ms) =
    let rest = proxy_addrs contains ms in if is_proxy contains m then quoted m.addr ∷ rest else rest

abbrev pub more_values : List String → String → String
more_values [] text = text
more_values (a ∷ addrs) text = more_values addrs (text_append (text ∷ "," ∷ a ∷ []))

-- The text of the INSERT: the addresses stand in it as they are.
unfoldable pub insert_text : List String → String
insert_text [] = "INSERT INTO proxies (ip_address) VALUES "
insert_text (a ∷ addrs) =
    more_values addrs (text_append ("INSERT INTO proxies (ip_address) VALUES " ∷ a ∷ []))

-- What the database makes of the text of an INSERT into proxies: the rows of the table after it, or
-- `none` for an error, after which nothing has changed.
abbrev pub RunInsert : Type 0
RunInsert = String → Tables → Option (List String)

abbrev pub inserted : Option (List String) → Tables → Bool × Tables
inserted none t = (true, t)
inserted (some rows) t = (false, record t { proxies = rows })

-- `true` stands for the database's error.
abbrev pub add_proxies : RunInsert → List String → Tables → Bool × Tables
add_proxies run addrs t = inserted (run (insert_text addrs) t) t

unfoldable pub after_insert : Bool → Result Error Bool → Db Tables Error (Unit {0})
unfolding after_statement
after_insert begun (ok true) = after_statement begun (err (wrapped ""))
after_insert begun (ok false) = pure tt
after_insert begun (err e) = after_statement begun (err e)
after_insert begun panic = panics

unfoldable pub insert_proxies : RunInsert → Bool → List String → Db Tables Error (Unit {0})
unfolding after_insert
insert_proxies run begun addrs = do
  r ← attempt (exec (wrapped "") (λ t _. add_proxies run addrs t))
  after_insert begun r

unfoldable pub replace_proxies : RunInsert → List String → Db Tables Error (List String)
replace_proxies run addrs = do
  begun ← begin_unchecked
  beside begun (λ t. record t { proxies = [] })
  insert_proxies run begun addrs
  commit_unused begun
  pure addrs

unfoldable pub update_proxies : RunInsert → List String → Db Tables Error (List String)
update_proxies run [] = pure []
update_proxies run (a ∷ addrs) = replace_proxies run (a ∷ addrs)

-- A POST whose body is a list of members: the answer has a line for each proxy.
unfoldable pub serve_proxy_update :
    (String → Bool) → RunInsert → List AgentMember → Db Tables Error (List String)
serve_proxy_update contains run members = update_proxies run (proxy_addrs contains members)

abbrev pub team_id_to_port_num : ℕ → ℕ
team_id_to_port_num team = team + 10000

-- A server of the nginx configuration: the port it listens on and the address it passes to.
abbrev pub nginx_server : TeamRow → List (ℕ × String)
nginx_server t = address t.ip_address
  where
    address : Option String → List (ℕ × String)
    address none = []
    address (some a) = if str_eq a "" then [] else (team_id_to_port_num t.id, a) ∷ []

abbrev pub nginx_conf : List TeamRow → List (ℕ × String)
nginx_conf [] = []
nginx_conf (t ∷ ts) = nginx_server t ++ nginx_conf ts

unfoldable pub serve_proxy_nginx_conf : Db Tables Error (List (ℕ × String))
serve_proxy_nginx_conf = query (wrapped "") (λ t _. nginx_conf t.teams)

module _ (collated : String → String → Bool) (itoa : ℕ → String) where
  unfoldable pub get_proxy_addrs : Db Tables Error (List String)
  get_proxy_addrs = query (wrapped "") (λ t _. order_by collated t.proxies)

  abbrev pub proxy_url : ℕ → String → String
  proxy_url team addr = text_append ("https://" ∷ addr ∷ ":" ∷ itoa (team_id_to_port_num team) ∷ [])

  abbrev pub more_urls : ℕ → List String → String → String
  more_urls team [] urls = urls
  more_urls team (a ∷ addrs) urls =
      more_urls team addrs (text_append (urls ∷ "," ∷ proxy_url team a ∷ []))

  abbrev pub join_urls : ℕ → List String → String
  join_urls team [] = ""
  join_urls team (a ∷ addrs) = more_urls team addrs (proxy_url team a)

  unfoldable pub get_proxy_urls : ℕ → Db Tables Error String
  get_proxy_urls team = do addrs ← get_proxy_addrs; pure (join_urls team addrs)

-- The addresses of the living proxies.
abbrev pub living : (String → Bool) → List AgentMember → List String
living contains [] = []
living contains (m ∷ ms) =
    let rest = living contains ms in if is_proxy contains m then m.addr ∷ rest else rest

proxy_addrs-living :
    (contains : String → Bool) (ms : List AgentMember)
    → proxy_addrs contains ms ≡ map quoted (living contains ms)
unfolding proxy_addrs
proxy_addrs-living contains [] = refl
proxy_addrs-living contains (m ∷ ms) = elim (Bool-cases (is_proxy contains m)) [
  | inl e ↦ rw (e, proxy_addrs-living contains ms) refl
  | inr e ↦ rw (e, proxy_addrs-living contains ms) refl
]

-- Whether two rows have the same key, in the collation of the database.
module _ (same : String → String → Bool) where
  abbrev pub mentions : String → List String → Bool
  mentions a [] = false
  mentions a (b ∷ bs) = same a b || mentions a bs

  abbrev pub repeats : List String → Bool
  repeats [] = false
  repeats (a ∷ bs) = mentions a bs || repeats bs

  -- The database reads the text of the INSERT as rows with these addresses, and refuses them all if
  -- a key would stand in the table twice.
  abbrev pub ReadsAs : RunInsert → List String → List String → Type 0
  ReadsAs run texts addrs =
      (t : Tables)
      → run (insert_text texts) t
        ≡ (if repeats (t.proxies ++ addrs) then none else some (t.proxies ++ addrs))

  -- With a driver that does not fail, and where the database reads the INSERT that is put together
  -- from the addresses as rows with these addresses: an update whose living proxies have different
  -- keys leaves exactly their addresses in the table; one that names no proxy changes nothing.
  pub serve_proxy_update-eq :
      (contains : String → Bool) (run : RunInsert) (members : List AgentMember) (w : World Tables)
      → w.faults ≡ []
      → ReadsAs run (map quoted (living contains members)) (living contains members)
      → repeats (living contains members) ≡ false
      → serve_proxy_update contains run members w ≡ elim (living contains members) [
        | [] ↦ (ok [], w)
        | a ∷ addrs ↦ (
          ok (map quoted (a ∷ addrs)),
          record w { tables = record w.tables { proxies = a ∷ addrs } },
        )
      ]
  unfolding serve_proxy_update update_proxies replace_proxies insert_proxies after_insert
      begin_unchecked beside after_statement commit_unused ◌>>=◌
  serve_proxy_update-eq contains run members w h reads d =
      rw (proxy_addrs-living contains members) (replaced (living contains members) reads d)
    where
      replaced :
          (addrs : List String)
          → ReadsAs run (map quoted addrs) addrs
          → repeats addrs ≡ false
          → update_proxies run (map quoted addrs) w ≡ elim addrs [
            | [] ↦ (ok [], w)
            | a ∷ more ↦ (
              ok (map quoted (a ∷ more)),
              record w { tables = record w.tables { proxies = a ∷ more } },
            )
          ]
      replaced [] k e = refl
      replaced (a ∷ addrs) k e =
          let empty : Tables = record w.tables { proxies = [] } in rw (h, k empty, e) refl

  -- The transaction of `serveProxyUpdate` guards nothing: with a driver that does not fail, and where
  -- the database reads the INSERT as rows with the addresses of the living proxies, an update that
  -- names a key twice fails at its INSERT and leaves no proxy in the table.
  pub serve_proxy_update_emptied :
      (contains : String → Bool) (run : RunInsert) (members : List AgentMember) (w : World Tables)
      → w.faults ≡ []
      → ReadsAs run (map quoted (living contains members)) (living contains members)
      → repeats (living contains members) ≡ true
      → ((serve_proxy_update contains run members w).0 ≡ err (wrapped ""))
        × ((serve_proxy_update contains run members w).1.tables.proxies ≡ [])
  unfolding serve_proxy_update update_proxies replace_proxies insert_proxies after_insert
      begin_unchecked beside after_statement commit_unused ◌>>=◌
  serve_proxy_update_emptied contains run members w h reads d =
      rw (proxy_addrs-living contains members) (emptied (living contains members) reads d)
    where
      emptied :
          (addrs : List String)
          → ReadsAs run (map quoted addrs) addrs
          → repeats addrs ≡ true
          → ((update_proxies run (map quoted addrs) w).0 ≡ err (wrapped ""))
            × ((update_proxies run (map quoted addrs) w).1.tables.proxies ≡ [])
      emptied [] k e = absurd cc
      emptied (a ∷ addrs) k e =
          let empty : Tables = record w.tables { proxies = [] } in rw (h, k empty, e) (refl, refl)
