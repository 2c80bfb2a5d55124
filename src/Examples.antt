-- ===== src/Examples.antt =====
-- The environment and the empty database that the components' examples run in.
use hotdrop_orchestration.Base.{◌+◌, none, []}
use hotdrop_orchestration.Messaging.{Env, Store}

abbrev pub clock : Env
clock = record { now = 5000; active_trace = none; random_uuid = λ n. 1000 + n; cuid = λ n. 100 + n }

abbrev pub database : {D : Type 0} → D → Store D
database tables = record { tables = tables; outbox = []; inbox = []; drawn = 0 }
