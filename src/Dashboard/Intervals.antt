-- ===== src/Dashboard/Intervals.antt =====
-- The lines of the workers in the dashboard: whose snapshot an interval is taken from.
use text.Mathlib.TextEquality.{eq_iff}
use handling_50k_requestes_p.Prelude.{
  ◌≡◌, ◌≢◌, refl, ap, ◌∙◌, String, List, [], ◌∷◌, ◌++◌, Option, none, some, arith,
}
use handling_50k_requestes_p.Prelude.Float.{Float}
use handling_50k_requestes_p.Prelude.Maps.{lookup, insert, lookup-insert}
use handling_50k_requestes_p.Stats.{Snapshot, sub}
use handling_50k_requestes_p.Prelude.{Bool}
use handling_50k_requestes_p.Dashboard.{
  after_lines, Lines, View, Shown, Observed, WorkerView, store_all, tick_with, after_lines, Lines,
  tick, worker_interval, stored,
}

-- No worker of the list has the name.
abbrev pub NoneNamed : String → List WorkerView → Type 0
NoneNamed name [] = Unit {0}
NoneNamed name (w ∷ ws) = (w.name ≢ name) × NoneNamed name ws

store_all_others :
    (name : String) (ws : List WorkerView) (m : List (String × Option Snapshot))
    → NoneNamed name ws
    → lookup name (store_all ws m) ≡ lookup name m
store_all_others name [] m h = refl
store_all_others name (w ∷ ws) m (other, others) =
    store_all_others name ws (insert w.name w.snap m) others
    ∙ lookup-insert w.name name w.snap m
    ∙ ground (arith, eq_iff w.name name, other)

lookup-store_all :
    (before after : List WorkerView) (w : WorkerView) (m : List (String × Option Snapshot))
    → NoneNamed w.name after
    → lookup w.name (store_all (before ++ (w ∷ after)) m) ≡ some w.snap
lookup-store_all [] after w m h =
    store_all_others w.name after (insert w.name w.snap m) h
    ∙ lookup-insert w.name w.name w.snap m
    ∙ ground (arith, eq_iff w.name w.name)
lookup-store_all (b ∷ before) after w m h =
    lookup-store_all before after w (insert b.name b.snap m) h

lines-stores :
    (fl : Float) (s t : View fl) (o : Observed) (x : Shown fl) (d : Snapshot)
    (lines : Option (Lines fl))
    → after_lines fl s o d lines ≡ some (t, x)
    → t.prev_worker ≡ store_all o.workers s.prev_worker
lines-stores fl s t o x d none e = ground arith
lines-stores fl s t o x d (some l) e = ground arith

tick-stores :
    (fl : Float) (interactive : Bool) (s t : View fl) (o : Observed) (x : Shown fl)
    (d : Option Snapshot)
    → tick_with fl interactive s o d ≡ some (t, x)
    → t.prev_worker ≡ store_all o.workers s.prev_worker
tick-stores fl interactive s t o x none e = ground arith
tick-stores fl interactive s t o x (some d) e = lines-stores fl s t o x d _ e

-- If a tick observes a worker, and no worker that the source lists behind it has the same name, then at
-- the next tick the interval of a worker of this name is taken from the snapshot that this tick saw of
-- it: it is its new snapshot less that one, or no interval where it has no new snapshot.
own_interval :
    (fl : Float) (interactive : Bool) (s t : View fl) (o : Observed) (x : Shown fl)
    (before after : List WorkerView) (w : WorkerView) (now : Snapshot)
    → tick fl interactive s o ≡ some (t, x)
    → o.workers ≡ before ++ (w ∷ after)
    → NoneNamed w.name after
    → (worker_interval t.prev_worker w.name (some now) ≡ sub now w.snap)
      × (worker_interval t.prev_worker w.name none ≡ none)
unfolding tick
own_interval fl interactive s t o x before after w now e listed h =
    let there : lookup w.name t.prev_worker ≡ some w.snap =
      rw (tick-stores fl interactive s t o x (sub o.total s.prev) e, listed)
        (lookup-store_all before after w s.prev_worker h) in
    (ap (λ p. sub now (stored p)) there, refl)
