-- ===== src/Bench/Matsuri/Score.antt =====
-- What the strokes that the watchers hear are worth.
use isucon6_final.Common.{
  ℕ, ◌+◌, ◌*◌, ◌≤◌, ◌≡◌, refl, Option, none, some, List, [], ◌∷◌, map, ◌==◌, length, All, arith,
  Bool-cases, inl, inr, if◌then◌else◌, ==_iff,
}
use native.Mathlib.Nat.{mul-suc}
use isucon6_final.Sql.Sorted.{Rising}
use isucon6_final.Bench.Fails.{Tally}
use isucon6_final.Bench.Matsuri.{
  StrokeLog, Watcher, Posted, find_posted, score_found, score_logs, score_watchers,
}

abbrev pub ids_of : Watcher → List ℕ
ids_of w = map (λ (l : StrokeLog). l.stroke_id) w.stroke_logs

-- How often an id occurs, and how many ids were posted.
count_id : ℕ → List ℕ → ℕ
count_id x [] = 0
count_id x (i ∷ is) = (if x == i then 1 else 0) + count_id x is

abbrev worth : Option Posted → ℕ
worth none = 0
worth (some p) = 1

hits : List Posted → List ℕ → ℕ
hits posted [] = 0
hits posted (i ∷ is) = worth (find_posted i posted) + hits posted is

count_id-below : (x lo hi : ℕ) (is : List ℕ) → x ≤ lo → Rising lo is hi → count_id x is ≡ 0
unfolding count_id
count_id-below x lo hi [] h r = refl
count_id-below x lo hi (i ∷ is) h r =
    ground (arith, r.0, count_id-below x i hi is (omega (arith, h, r.0)) r.1)

count_id-Rising : (x lo hi : ℕ) (is : List ℕ) → Rising lo is hi → count_id x is ≤ 1
unfolding count_id
count_id-Rising x lo hi [] r = omega arith
count_id-Rising x lo hi (i ∷ is) r = elim (Bool-cases (x == i)) [
  | inl e ↦
      let same : x ≡ i = (==_iff x i).0 e in
      rw (e, count_id-below x i hi is (omega (arith, same)) r.1) (omega arith)
  | inr e ↦ rw e (omega (arith, count_id-Rising x i hi is r.1))
]

hits-nil : (is : List ℕ) → hits [] is ≡ 0
unfolding hits find_posted
hits-nil [] = refl
hits-nil (i ∷ is) = omega (arith, hits-nil is)

hits-cons :
    (p : Posted) (ps : List Posted) (is : List ℕ) → hits (p ∷ ps) is ≤ count_id p.id is + hits ps is
unfolding hits find_posted count_id
hits-cons p ps [] = omega arith
hits-cons p ps (i ∷ is) = ground (arith, hits-cons p ps is)

hits-Rising :
    (posted : List Posted) (lo hi : ℕ) (is : List ℕ)
    → Rising lo is hi
    → hits posted is ≤ length posted
hits-Rising [] lo hi is r = omega (arith, hits-nil is)
hits-Rising (p ∷ ps) lo hi is r =
    omega (arith, hits-cons p ps is, count_id-Rising p.id lo hi is r, hits-Rising ps lo hi is r)

score_found-worth :
    (l : StrokeLog) (o : Option Posted) (s : Tally) → (score_found l o s).score ≤ s.score + worth o
unfolding score_found
score_found-worth l none s = omega arith
score_found-worth l (some p) s = ground arith

score_logs-hits :
    (posted : List Posted) (ls : List StrokeLog) (s : Tally)
    → (score_logs posted ls s).score
      ≤ s.score + hits posted (map (λ (l : StrokeLog). l.stroke_id) ls)
unfolding score_logs hits
score_logs-hits posted [] s = omega arith
score_logs-hits posted (l ∷ ls) s =
    let o = find_posted l.stroke_id posted in
    omega (arith, score_found-worth l o s, score_logs-hits posted ls (score_found l o s))

-- If every watcher has heard strokes whose ids rise, then each of them earns at most one point for
-- each stroke that was posted.
pub score_watchers_bound :
    (posted : List Posted) (ws : List Watcher) (s : Tally)
    → All (λ w. (hi : ℕ) × Rising 0 (ids_of w) hi) ws
    → (score_watchers posted ws s).score ≤ s.score + length posted * length ws
unfolding score_watchers
score_watchers_bound posted [] s a = omega arith
score_watchers_bound posted (w ∷ ws) s a =
    let t = score_logs posted w.stroke_logs s in
    omega (
      arith,
      score_logs-hits posted w.stroke_logs s,
      hits-Rising posted 0 a.0.0 (ids_of w) a.0.1,
      score_watchers_bound posted ws t a.1,
      mul-suc (length posted) (length ws),
    )
