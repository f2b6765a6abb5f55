-- ===== src/Gateway/Http/Sessions.antt =====
-- The life of a session and of the server, gateway/src/http_server.cpp.
use eye_d.Base.{◌+◌, ◌≡◌, Bool, true, arith, if◌then◌else◌}
use eye_d.Base.Eq.{nat_Eq, string_Eq}
use eye_d.Gateway.Http.{HttpServer, run, stop}

-- The acceptor is open and there is a thread to join exactly while the server runs.
pub record IsTidy (s : HttpServer) : Type 0 where
  pub acceptor : s.acceptor_open ≡ s.running
  pub thread : s.thread_joinable ≡ s.running

-- A server that is open and has a thread to join exactly while it runs stays so under `run`, whether the
-- port can be bound or not, and under `stop`; after a successful `run` another one does nothing, and
-- after a `stop` another one; and a `run` starts one thread on a stopped server and none on a running
-- one.
pub run-stop-IsTidy :
    (s : HttpServer) (binds : Bool)
    → IsTidy s
    → IsTidy (run binds s)
      × IsTidy (stop s)
      × (run binds (run true s) ≡ run true s)
      × (stop (stop s) ≡ stop s)
      × ((run true s).threads_started
          ≡ (if s.running then s.threads_started else s.threads_started + 1))
unfolding run stop
run-stop-IsTidy s binds t = (ground arith, ground arith, ground arith, ground arith, ground arith)
