-- ===== src/Tests/Loop.antt =====
-- The loop of the ingest worker where `stop` is called after some time.
use ject6_4th_ai_analyzer.Base.{refl, ap, none, [], length, leb, le→leb, arith}
use ject6_4th_ai_analyzer.Core.Effects.{Env, Log, Command, Reply, Result, ok, stop_requested}
use ject6_4th_ai_analyzer.Worker.IngestWorker.{run}
use ject6_4th_ai_analyzer.Worker.Stops.{HasEnded, StopsBy, run_ends}
use ject6_4th_ai_analyzer.Tests.World.{world, answers}

abbrev stopping_answers : Log → (c : Command) → Result (Reply c)
stopping_answers h stop_requested = ok (leb 5 (length h))
stopping_answers h c = answers none h c

abbrev stopping_world : Env
stopping_world = record world { answer = stopping_answers }

stops_by : StopsBy stopping_world 5
stops_by l h = ap ok (le→leb 5 (length l) h)

run_ends_example : HasEnded (run stopping_world 8 []).0
run_ends_example = run_ends stopping_world (λ A n p m h e. refl) 5 stops_by 7 [] (omega arith)
