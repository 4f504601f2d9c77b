-- ===== src/Service/Server.antt =====
-- service/server.cc: the sockets of the server and the instances that serve them. The open
-- descriptors of the process are passed along; the calls of the operating system are parameters.
use Prim.Native.String.{String}
use red_giant.Prelude.{
  ℕ, zero, suc, Bool, Option, none, some, List, [], ◌∷◌, if◌then◌else◌, ◌==◌, ◌++◌,
}
use red_giant.Key.Names.{emplace}
use red_giant.Feature.Spaces.{Status}
use red_giant.Service.Instance.{Events, ServerInstance, server_instance}
use red_giant.Service.Instance

-- What the operating system answers, given the descriptors that are open, or to a call on one.
pub record System : Type 0 where
  pub socket : List ℕ → Option ℕ
  pub bind : ℕ → ℕ → Bool
  pub listen : ℕ → ℕ → Bool
  pub get_flags : ℕ → Option ℕ
  pub set_nonblocking : ℕ → ℕ → Bool
  pub socketpair : List ℕ → Option (ℕ × ℕ)
  pub write : ℕ → Bool

-- `none` is the descriptor -1; the two of `notify_fd_` are set and closed together.
pub record Server (F : Type 0) (H : Type 0) : Type 0 where
  pub port : ℕ
  pub thread_num : ℕ
  pub max_req_per_thread : ℕ
  pub routes : List (String × F)
  pub instances : List (ServerInstance H)
  pub instance_threads : List (ServerInstance H)
  pub fd : Option ℕ
  pub notify_fd : Option (ℕ × ℕ)

-- `::close`
unfoldable pub close : ℕ → List ℕ → List ℕ
close fd [] = []
close fd (x ∷ l) = let rest = close fd l in if x == fd then rest else x ∷ rest

unfoldable pub bind_socket : System → ℕ → ℕ → List ℕ → Option ℕ × List ℕ
bind_socket os port backlog opened = elim (os.socket opened) [
  | none ↦ (none, opened)
  | some nfd ↦
      if os.bind nfd port
      then if os.listen nfd backlog
        then elim (os.get_flags nfd) [
          | none ↦ (none, nfd ∷ opened)
          | some flags ↦ (if os.set_nonblocking nfd flags then some nfd else none, nfd ∷ opened)
        ]
        else (none, nfd ∷ opened)
      else (none, nfd ∷ opened)
]

module _ {F : Type 0} {H : Type 0} where
  -- `Server(port, thread_num, max_req_per_thread)`
  abbrev pub new_server : ℕ → ℕ → ℕ → Server F H
  new_server port thread_num max_req_per_thread = record {
    port = port;
    thread_num = thread_num;
    max_req_per_thread = max_req_per_thread;
    routes = [];
    instances = [];
    instance_threads = [];
    fd = none;
    notify_fd = none;
  }

  unfoldable pub bind : String → F → Server F H → Status × Server F H
  bind uri factory s =
      let (routes, inserted) = emplace uri factory s.routes in
      (if inserted then Status.success else Status.failure, record s { routes = routes })

  unfoldable pub start : Server F H → Status × Server F H
  start s = elim s.fd [
    | none ↦ (Status.failure, s)
    | some fd ↦ elim s.notify_fd [
      | none ↦ (Status.failure, s)
      | some notify_fd ↦
          (Status.success, record s { instance_threads = s.instance_threads ++ s.instances })
    ]
  ]

  -- The threads end, since each has the other end of the pair as an event.
  unfoldable pub stop : System → Server F H → List ℕ → Status × Server F H × List ℕ
  stop os s opened = elim s.fd [
    | none ↦ (Status.failure, s, opened)
    | some fd ↦ elim s.notify_fd [
      | none ↦ (Status.failure, s, opened)
      | some (a, b) ↦
          if os.write b
          then (
            Status.success,
            record s { instance_threads = []; instances = []; fd = none; notify_fd = none },
            close b (close a (close fd opened)),
          )
          else (Status.failure, s, opened)
    ]
  ]

  module _ (create_handler : F → H) where
    unfoldable pub create_route_map : List (String × F) → List (String × H)
    create_route_map [] = []
    create_route_map ((uri, factory) ∷ l) = (uri, create_handler factory) ∷ create_route_map l

    -- `n` more instances from the id `i` on; `none` if one of them fails.
    unfoldable pub create_instances :
        Events → ℕ → ℕ → ℕ → ℕ → Server F H → Option (List (ServerInstance H))
    create_instances ev fd notify_fd zero i s = some []
    create_instances ev fd notify_fd (suc n) i s =
        let rest = create_instances ev fd notify_fd n (suc i) s in
        let instance =
          server_instance fd notify_fd s.max_req_per_thread (create_route_map s.routes) in
        let (ret, made) = Instance.initialize ev i instance in
        elim ret [
          | Status.success ↦ elim rest [ none ↦ none | some l ↦ some (made ∷ l) ]
          | Status.failure ↦ none
          | Status.asserts ↦ none
        ]

    -- `initialize` once the socket is bound.
    unfoldable pub initialize_bound :
        System → Events → Server F H → ℕ → List ℕ → Status × Server F H × List ℕ
    initialize_bound os ev s fd opened = elim (os.socketpair opened) [
      | none ↦ (Status.failure, record s { fd = none; notify_fd = none }, close fd opened)
      | some (a, b) ↦ elim (create_instances ev fd a s.thread_num 0 s) [
        | none ↦ (
          Status.failure,
          record s { instances = []; fd = none; notify_fd = none },
          close b (close a (close fd (a ∷ b ∷ opened))),
        )
        | some l ↦ (
          Status.success,
          record s { instances = s.instances ++ l; fd = some fd; notify_fd = some (a, b) },
          a ∷ b ∷ opened,
        )
      ]
    ]

    unfoldable pub initialize : System → Events → Server F H → List ℕ → Status × Server F H × List ℕ
    initialize os ev s opened =
        let (bound, opened1) = bind_socket os s.port 10240 opened in
        elim bound [
          | none ↦ (Status.failure, record s { fd = none }, opened1)
          | some fd ↦ initialize_bound os ev s fd opened1
        ]
