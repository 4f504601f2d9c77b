-- ===== src/Service/Instance.antt =====
-- service/server_instance.cc: one thread of the server. It finds the handler of a request by its
-- path, and asks for a connection to be closed once in a while. libevent is a parameter.
use Prim.Native.String.{String}
use red_giant.Prelude.{
  ℕ, suc, Bool, true, false, none, some, List, [], ◌∷◌, if◌then◌else◌, ltb, ◌&&◌,
}
use red_giant.Key.Names.{find}
use red_giant.Feature.Spaces.{Status}

-- Whether the calls of libevent succeed: `event_base_new_with_config`, `evhttp_new`,
-- `evhttp_accept_socket` and `event_new`, each for the instance of an id.
pub record Events : Type 0 where
  pub event_base_new : ℕ → Bool
  pub evhttp_new : ℕ → Bool
  pub evhttp_accept_socket : ℕ → ℕ → Bool
  pub event_new : ℕ → ℕ → Bool

-- `fd_`, `notify_fd_`, ...; `ev_base` and `ev_http` say whether the pointers are set.
pub record ServerInstance (H : Type 0) : Type 0 where
  pub fd : ℕ
  pub notify_fd : ℕ
  pub max_req_per_thread : ℕ
  pub route_map : List (String × H)
  pub ev_base : Bool
  pub ev_http : Bool
  pub handle_count : ℕ

-- The uri of a request: libevent may have none, and a uri may have no path.
pub data RequestUri : Type 0 where
  no_uri no_path : RequestUri
  with_path : String → RequestUri

-- What becomes of a request: an error is sent, or a handler is called, with the header
-- "Connection: close" or without it.
pub data Dispatch (H : Type 0) : Type 0 where
  send_error : ℕ → Dispatch H
  handle_request : H → Bool → Dispatch H

module _ {H : Type 0} where
  abbrev pub server_instance : ℕ → ℕ → ℕ → List (String × H) → ServerInstance H
  server_instance fd notify_fd max_req_per_thread route_map = record {
    fd = fd;
    notify_fd = notify_fd;
    max_req_per_thread = max_req_per_thread;
    route_map = route_map;
    ev_base = false;
    ev_http = false;
    handle_count = 0;
  }

  -- The count of the requests that are handled, and whether the connection is to be closed.
  unfoldable pub count_request : ServerInstance H → Bool × ServerInstance H
  count_request s =
      let handle_count = suc s.handle_count in
      if ltb 0 s.max_req_per_thread && ltb s.max_req_per_thread handle_count
      then (true, record s { handle_count = 0 })
      else (false, record s { handle_count = handle_count })

  unfoldable pub on_path : String → ServerInstance H → Dispatch H × ServerInstance H
  on_path path s = elim (find path s.route_map) [
    | none ↦ (send_error 404, s)
    | some handler ↦ let (close, s1) = count_request s in (handle_request handler close, s1)
  ]

  unfoldable pub on_request : RequestUri → ServerInstance H → Dispatch H × ServerInstance H
  on_request no_uri s = (send_error 400, s)
  on_request no_path s = on_path "/" s
  on_request (with_path path) s = on_path path s

  -- The requests that `event_base_dispatch` takes until the notification comes.
  unfoldable pub event_base_dispatch :
      List RequestUri → ServerInstance H → List (Dispatch H) × ServerInstance H
  event_base_dispatch [] s = ([], s)
  event_base_dispatch (req ∷ l) s =
      let (answer, s1) = on_request req s in
      let (answers, s2) = event_base_dispatch l s1 in (answer ∷ answers, s2)

  unfoldable pub run :
      List RequestUri → ServerInstance H → Status × List (Dispatch H) × ServerInstance H
  run requests s =
      let (answers, s1) = event_base_dispatch requests (record s { handle_count = 0 }) in
      if s.ev_base && s.ev_http then (Status.success, answers, s1) else (Status.failure, [], s)

  unfoldable pub initialize : Events → ℕ → ServerInstance H → Status × ServerInstance H
  initialize ev id s =
      let s1 = record s { ev_base = true } in
      let s2 = record s1 { ev_http = true } in
      if ev.event_base_new id
      then if ev.evhttp_new id
        then if ev.evhttp_accept_socket id s.fd
          then if ev.event_new id s.notify_fd then (Status.success, s2) else (Status.failure, s2)
          else (Status.failure, s2)
        else (Status.failure, s1)
      else (Status.failure, s)
