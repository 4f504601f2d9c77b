-- ===== src/Tests/Servers.antt =====
-- Servers with concrete answers of the operating system.
use red_giant.Prelude.{
  ℕ, suc, ◌==◌, ◌+◌, ◌*◌, ◌≤◌, ◌≡◌, refl, true, false, some, List, [], ◌∷◌, arith, contains, length,
}
use red_giant.Key.Names.{find}
use red_giant.Feature.Spaces.{Status}
use red_giant.Service.Instance.{
  Events, ServerInstance, RequestUri, no_uri, no_path, with_path, run, server_instance,
  event_base_dispatch, on_request, on_path, count_request,
}
use red_giant.Service.Server.{System, Server, new_server, bind, initialize}
use red_giant.Service.Descriptors.{IsFresh}
use red_giant.Service.Lifecycle.{Initialized, initialize-Initialized}
use red_giant.Service.Closing.{handled, closings, run-closings}

-- A number above all of a list.
abbrev above : List ℕ → ℕ
above [] = 3
above (x ∷ l) = suc (x + above l)

contains-above : (x : ℕ) (l : List ℕ) → above l ≤ x → contains x l ≡ false
contains-above x [] h = refl
contains-above x (y ∷ l) h = ground (arith, contains-above x l)

abbrev system : System
system = record {
  socket = λ opened. some (above opened);
  bind = λ fd port. true;
  listen = λ fd backlog. true;
  get_flags = λ fd. some 2;
  set_nonblocking = λ fd flags. true;
  socketpair = λ opened. some (above opened, suc (above opened));
  write = λ fd. true;
}

abbrev events : Events
events = record {
  event_base_new = λ id. true;
  evhttp_new = λ id. true;
  evhttp_accept_socket = λ id fd. true;
  event_new = λ id fd. true;
}

system-IsFresh : IsFresh system
system-IsFresh = record {
  of_socket = λ opened fd e. contains-above fd opened (ground (arith, e));
  of_pair = λ opened a b e.
      (contains-above a opened (ground (arith, e)), contains-above b opened (ground (arith, e)));
}

abbrev factory : ℕ → ℕ
factory f = f + 100

abbrev two_routes : Server ℕ ℕ
unfolding bind
two_routes = (bind "/update" 2 (bind "/query" 1 (new_server 80 2 1)).1).1

initialize-Initialized_example :
    Initialized factory system two_routes [] (initialize factory system events two_routes [])
unfolding two_routes
initialize-Initialized_example =
    initialize-Initialized factory system events two_routes [] system-IsFresh
      (refl, refl, refl, refl)

abbrev instance_of_two : ServerInstance ℕ
instance_of_two = record (server_instance 3 4 1 (("/query", 101) ∷ [])) {
  ev_base = true;
  ev_http = true;
}

-- The second instance fails.
abbrev failing : Events
failing = record events { evhttp_new = λ id. id == 0 }

abbrev requests : List RequestUri
requests = with_path "/query" ∷ no_uri ∷ with_path "/query" ∷ no_path ∷ with_path "/query" ∷ []

run-closings_example :
    let (ret, answers, s1) = run requests instance_of_two in
    (ret ≡ Status.success)
    × (length answers ≡ 5)
    × (closings answers * 2 ≤ handled answers)
    × (handled answers ≤ closings answers * 2 + 1)
run-closings_example = run-closings requests instance_of_two refl refl (omega arith)

-- The second of three requests closes the connection.
one_closing : closings (run requests instance_of_two).1 ≡ 1
unfolding run event_base_dispatch on_request on_path find count_request
one_closing = refl
