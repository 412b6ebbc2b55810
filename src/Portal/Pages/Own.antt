-- ===== src/Portal/Pages/Own.antt =====
-- What serveUpdateTeam and the pages may change.
use isucon6_final.Common.{
  ℕ, ◌≡◌, ◌≢◌, ◌⊎◌, refl, ap, Bool, true, false, Option, none, some, List, [], ◌∷◌, String, subst,
  inl, inr, Bool-cases, if◌then◌else◌,
}
use isucon6_final.Db.{World, Result, ok, err, panic, continue, pure, raise, ◌>>=◌}
use isucon6_final.Db.Reads.{Reads, Reads-pure, Reads-query, Reads-clock, Reads-bind}
use isucon6_final.Portal.Schema.{Tables, Error, http}
use isucon6_final.Portal.Contest.{ContestStatus, not_started, started, ended, get_contest_status}
use isucon6_final.Portal.Messages.{get_messages}
use isucon6_final.Portal.Results.{Display, get_results, get_team_results}
use isucon6_final.Portal.Queue.Listing.{get_queued_jobs}
use isucon6_final.Portal.Replies.{Team, IndexPage, Reply, redirect, index_page}
use isucon6_final.Portal.Sessions.{Setup, Visit, contest_status, load_team_from_session}
use isucon6_final.Portal.Sessions.Reading.{contest_status-Reads, load_team_from_session-Reads}
use isucon6_final.Portal.Pages.{
  load_index, serve_index_with_message, is_bad_address, update_teams, notify_proxy, save_team,
  update_loaded, update_posted, update_open, update_in, serve_update_team,
}

pub get_queued_jobs-Reads : (s : ContestStatus) → Reads (get_queued_jobs s)
unfolding get_queued_jobs
get_queued_jobs-Reads not_started = Reads-pure _
get_queued_jobs-Reads started = Reads-query _ _
get_queued_jobs-Reads ended = Reads-pure _

module _ (display : Display) (f : Setup) where
  load_index-Reads : (v : Visit) (message : String) → Reads (load_index display f v message)
  unfolding load_index get_results get_team_results get_messages
  load_index-Reads v message = Reads-bind _ _ (load_team_from_session-Reads f v) λ team.
      Reads-bind _ _ (Reads-query _ _) λ shown. Reads-bind _ _ (Reads-query _ _) λ results.
        Reads-bind _ _ (contest_status-Reads f) λ status.
          Reads-bind _ _ (get_queued_jobs-Reads status) λ jobs.
            Reads-bind _ _ (Reads-query _ _)
              λ messages. Reads-bind _ _ Reads-clock λ now. Reads-pure _

  pub serve_index_with_message-Reads :
      (v : Visit) (message : String) → Reads (serve_index_with_message display f v message)
  unfolding serve_index_with_message
  serve_index_with_message-Reads v message =
      Reads-bind _ _ (load_index-Reads v message) λ p. Reads-pure _

  paged :
      (r : Result Error IndexPage) (w : World Tables)
      → (continue r (λ p. pure (index_page p)) w).0 ≢ ok redirect
  unfolding ◌>>=◌
  paged (ok p) w = λ k. cc
  paged (err e) w = λ k. cc
  paged panic w = λ k. cc

  -- The first page is no redirect to itself.
  pub serve_index_with_message-shown :
      (v : Visit) (message : String) (w : World Tables)
      → (serve_index_with_message display f v message w).0 ≢ ok redirect
  unfolding serve_index_with_message ◌>>=◌
  serve_index_with_message-shown v message w =
      paged (load_index display f v message w).0 (load_index display f v message w).1

module _ (is_ipv4 : String → Bool) (f : Setup) (instance_name ip_address : String) where
  abbrev pub May : Visit → World Tables → Team → Type 0
  May v w team =
      ((load_team_from_session f v w).0 ≡ ok (some team))
      × (get_contest_status f.starts f.ends f.midnight w.now ≢ ended)
      × (v.is_post ≡ true)
      × (is_bad_address is_ipv4 ip_address ≡ false)

  -- The tables are as before and the answer is no redirect, or they have the update of the team.
  abbrev pub OwnOnly : (Team → Type 0) → Tables → Result Error Reply → Tables → Type 0
  OwnOnly may t r u =
      ((u ≡ t) × (r ≢ ok redirect))
      ⊎ ((team : Team) × may team × (u ≡ update_teams team.id instance_name ip_address t))

  saved_own :
      (may : Team → Type 0) (team : Team) (t : Tables) (now : ℕ) (faults : List Bool)
      → is_bad_address is_ipv4 ip_address ≡ false
      → may team
      → (let (r, u) =
            save_team is_ipv4 instance_name ip_address team
              (record { tables = t; now = now; faults = faults }) in
          OwnOnly may t r u.tables)
  unfolding save_team notify_proxy ◌>>=◌
  saved_own may team t now [] fine m = rw fine (inr (team, m, refl))
  saved_own may team t now (true ∷ rest) fine m = rw fine (inl (refl, λ k. cc))
  saved_own may team t now (false ∷ []) fine m = rw fine (inr (team, m, refl))
  saved_own may team t now (false ∷ true ∷ rest) fine m = rw fine (inr (team, m, refl))
  saved_own may team t now (false ∷ false ∷ rest) fine m = rw fine (inr (team, m, refl))

  save_team-own :
      (may : Team → Type 0) (team : Team) (w : World Tables)
      → (is_bad_address is_ipv4 ip_address ≡ false → may team)
      → OwnOnly may w.tables
          (save_team is_ipv4 instance_name ip_address team w).0
          (save_team is_ipv4 instance_name ip_address team w).1.tables
  unfolding save_team ◌>>=◌
  save_team-own may team w h = elim (Bool-cases (is_bad_address is_ipv4 ip_address)) [
    | inl bad ↦ rw bad (inl (refl, λ k. cc))
    | inr fine ↦ saved_own may team w.tables w.now w.faults fine (h fine)
  ]

  loaded_own :
      (may : Team → Type 0) (r : Result Error (Option Team)) (w : World Tables)
      → ((team : Team) → r ≡ ok (some team) → is_bad_address is_ipv4 ip_address ≡ false → may team)
      → OwnOnly may w.tables
          (continue r (update_loaded is_ipv4 instance_name ip_address) w).0
          (continue r (update_loaded is_ipv4 instance_name ip_address) w).1.tables
  unfolding update_loaded ◌>>=◌
  loaded_own may (ok none) w h = inl (refl, λ k. cc)
  loaded_own may (ok (some team)) w h = save_team-own may team w (h team refl)
  loaded_own may (err e) w h = inl (refl, λ k. cc)
  loaded_own may panic w h = inl (refl, λ k. cc)

  module _ (v : Visit) (w : World Tables) where
    update_posted-own :
        get_contest_status f.starts f.ends f.midnight w.now ≢ ended
        → v.is_post ≡ true
        → (let (r, u) = update_posted is_ipv4 f v instance_name ip_address w in
            OwnOnly (May v w) w.tables r u.tables)
    unfolding update_posted ◌>>=◌
    update_posted-own open_now post =
        let (rest, after) = (load_team_from_session-Reads f v).at w in
        let (found, u) = load_team_from_session f v w in
        subst
          (λ t.
            OwnOnly (May v w) t
              (continue found (update_loaded is_ipv4 instance_name ip_address) u).0
              (continue found (update_loaded is_ipv4 instance_name ip_address) u).1.tables)
          (ap (λ (x : World Tables). x.tables) after)
          (loaded_own (May v w) found u (λ team same fine. (same, open_now, post, fine)))

    update_open-own :
        (post : Bool)
        → get_contest_status f.starts f.ends f.midnight w.now ≢ ended
        → v.is_post ≡ post
        → (let (r, u) =
              (if post
                  then update_posted is_ipv4 f v instance_name ip_address
                  else raise (http 405))
                w in
            OwnOnly (May v w) w.tables r u.tables)
    unfolding ◌>>=◌
    update_open-own true open_now e = update_posted-own open_now e
    update_open-own false open_now e = inl (refl, λ k. cc)

    update_in-own :
        (status : ContestStatus)
        → get_contest_status f.starts f.ends f.midnight w.now ≡ status
        → (let (r, u) = update_in is_ipv4 f v instance_name ip_address status w in
            OwnOnly (May v w) w.tables r u.tables)
    unfolding update_in update_open ◌>>=◌
    update_in-own ended e = inl (refl, λ k. cc)
    update_in-own not_started e = update_open-own v.is_post (λ k. cc) refl
    update_in-own started e = update_open-own v.is_post (λ k. cc) refl

    -- `serveUpdateTeam` changes nothing but the address and the instance name of the team that the
    -- session is of, to those posted, and only before the end of the contest, for a POST and for an
    -- empty address or one of IPv4. In every other case, whatever the driver answers, it changes
    -- nothing and does not answer with the redirect.
    pub serve_update_team-own :
        OwnOnly
          (May v w)
          w.tables
          (serve_update_team is_ipv4 f v instance_name ip_address w).0
          (serve_update_team is_ipv4 f v instance_name ip_address w).1.tables
    unfolding serve_update_team contest_status ◌>>=◌
    serve_update_team-own = update_in-own (get_contest_status f.starts f.ends f.midnight w.now) refl
