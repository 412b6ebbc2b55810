-- ===== src/Portal/Mux/Mounting.antt =====
-- What holds of every handler that is mounted holds of the request that one of them serves.
use isucon6_final.Common.{
  ℕ, Bool, true, false, Option, none, some, List, [], ◌∷◌, String, All, str_eq, Bool-cases, inl,
  inr,
}
use isucon6_final.Db.{World, Db}
use isucon6_final.Db.Keeps.{Keeps}
use isucon6_final.Portal.Schema.{Tables, Error}
use isucon6_final.Portal.Contest.{ContestStatus, not_started, started, ended}
use isucon6_final.Portal.Replies.{Reply, serve_http}
use isucon6_final.Portal.Sessions.{Setup}
use isucon6_final.Portal.Mux.{
  Library, Request, Mounted, handler, not_found, build_mux, mounted_at, serve_mounted, serve_chosen,
  chosen, serve, is_internal,
}

abbrev pub Each : (Db Tables Error Reply → Type 0) → Mounted → Type 0
Each P (handler fn) = P fn
Each P not_found = Unit

pub Each-mono :
    (P Q : Db Tables Error Reply → Type 0)
    → ((fn : Db Tables Error Reply) → P fn → Q fn)
    → (m : Mounted) → Each P m
    → Each Q m
Each-mono P Q h (handler fn) k = h fn k
Each-mono P Q h not_found k = tt

serve_http-keeps :
    (P : Tables → Type 0) (status_text : ℕ → String) (status : ContestStatus) (internal : Bool)
    (fn : Db Tables Error Reply) (w : World Tables)
    → Keeps P fn
    → P w.tables
    → P (serve_http status_text status internal fn w).1.tables
unfolding serve_http
serve_http-keeps P status_text not_started true fn w k h = k.at w h
serve_http-keeps P status_text not_started false fn w k h = h
serve_http-keeps P status_text started internal fn w k h = k.at w h
serve_http-keeps P status_text ended internal fn w k h = k.at w h

module _ (l : Library) (f : Setup) where
  mounted_at-Each :
      (P : Db Tables Error Reply → Type 0) (p : String) (ms : List (String × Mounted))
      → All (λ (m : String × Mounted). Each P m.1) ms
      → Each P (mounted_at l f p ms)
  mounted_at-Each P p [] h = tt
  mounted_at-Each P p (m ∷ ms) h = elim (Bool-cases (str_eq p m.0)) [
    | inl e ↦ rw e (h.0)
    | inr e ↦ rw e (mounted_at-Each P p ms h.1)
  ]

  serve_mounted-keeps :
      (P : Tables → Type 0) (m : Mounted) (r : Request) (w : World Tables)
      → Each (λ fn. Keeps P fn) m
      → P w.tables
      → P (serve_mounted l f m r w).1.tables
  unfolding serve_mounted
  serve_mounted-keeps P not_found r w k h = h
  serve_mounted-keeps P (handler fn) r w k h =
      serve_http-keeps P l.status_text _ (is_internal l f r) fn w k h

  module _ (matched : List String → String → Option String) (own : Request → Reply)
      (P : Tables → Type 0) where
    serve_chosen-keeps :
        (p : Option String) (r : Request) (w : World Tables)
        → All (λ (m : String × Mounted). Each (λ fn. Keeps P fn) m.1) (build_mux l f r)
        → P w.tables
        → P (serve_chosen l f matched own p r w).1.tables
    unfolding serve_chosen
    serve_chosen-keeps none r w k h = h
    serve_chosen-keeps (some p) r w k h =
        serve_mounted-keeps P _ r w (mounted_at-Each (λ fn. Keeps P fn) p (build_mux l f r) k) h

    -- A request keeps what every mounted handler keeps.
    pub serve-keeps :
        (r : Request) (w : World Tables)
        → All (λ (m : String × Mounted). Each (λ fn. Keeps P fn) m.1) (build_mux l f r)
        → P w.tables
        → P (serve l f matched own r w).1.tables
    unfolding serve
    serve-keeps r w k h = serve_chosen-keeps (chosen l f matched own r) r w k h
