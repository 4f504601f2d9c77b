-- ===== src/Service/Lifecycle.antt =====
-- What `initialize` of the server leaves behind, where it succeeds and where it fails.
use Prim.Native.String.{String}
use red_giant.Prelude.{
  ℕ, zero, suc, ◌≡◌, ◌⊎◌, inl, inr, refl, sym, ap, true, false, ◌&&◌, none, some, List, [], ◌∷◌,
  arith, contains, length, All, Option-cases, Bool-cases,
}
use red_giant.Key.Names.{find}
use red_giant.Feature.Spaces.{Status}
use red_giant.Service.Instance.{
  Events, ServerInstance, server_instance, with_path, Dispatch, send_error, handle_request,
  on_request, on_path, count_request,
}
use red_giant.Service.Server.{
  System, Server, close, bind_socket, create_route_map, create_instances, initialize,
  initialize_bound,
}
use red_giant.Service.Instance
use mathlib.Core.Path.{subst}
use red_giant.Service.Descriptors.{
  IsFresh, contains-closed, contains-closed_one, first, second, bind_socket-cases,
}

module _ {F : Type 0} {H : Type 0} (create_handler : F → H) where
  abbrev pub IsNew : Server F H → Type 0
  IsNew s = (s.fd ≡ none) × (s.notify_fd ≡ none) × (s.instances ≡ []) × (s.instance_threads ≡ [])

  -- The instance, which has handled nothing yet, has a handler of the factory bound to a path, and
  -- answers other paths with 404.
  abbrev pub Serves : Server F H → ServerInstance H → Type 0
  Serves s instance =
      (path : String)
      → (on_request (with_path path) instance).0 ≡ elim (find path s.routes) [
        | none ↦ send_error 404
        | some factory ↦ handle_request (create_handler factory) false
      ]

  find-create_route_map :
      (path : String) (l : List (String × F))
      → find path (create_route_map create_handler l)
        ≡ elim (find path l) [ none ↦ none | some factory ↦ some (create_handler factory) ]
  unfolding create_route_map find
  find-create_route_map path [] = refl
  find-create_route_map path ((uri, factory) ∷ l) = ground (arith, find-create_route_map path l)

  server_instance-Serves :
      (s : Server F H) (i : ServerInstance H)
      → i.route_map ≡ create_route_map create_handler s.routes
      → i.handle_count ≡ 0
      → Serves s i
  unfolding on_request on_path count_request
  server_instance-Serves s i r c path = ground (arith, r, c, find-create_route_map path s.routes)

  instance_initialize-cases :
      (ev : Events) (id : ℕ) (i : ServerInstance H)
      → ((Instance.initialize ev id i).0 ≡ Status.failure)
        ⊎ (Instance.initialize ev id i
            ≡ (Status.success, record i { ev_base = true; ev_http = true }))
  unfolding Instance.initialize
  instance_initialize-cases ev id i =
      elim (Bool-cases (
        ev.event_base_new id
        && ev.evhttp_new id
        && ev.evhttp_accept_socket id i.fd
        && ev.event_new id i.notify_fd)) [
          | inl e ↦ inr (ground (arith, e))
          | inr e ↦ inl (ground (arith, e))
        ]

  create_instances-Made :
      (ev : Events) (fd notify_fd n i : ℕ) (s : Server F H) (l : List (ServerInstance H))
      → create_instances create_handler ev fd notify_fd n i s ≡ some l
      → (length l ≡ n) × All (Serves s) l
  unfolding create_instances
  create_instances-Made ev fd notify_fd zero i s [] h = (refl, tt)
  create_instances-Made ev fd notify_fd zero i s (x ∷ l) h = ground arith
  create_instances-Made ev fd notify_fd (suc n) i s l h =
      let made =
        server_instance fd notify_fd s.max_req_per_thread
          (create_route_map create_handler s.routes) in
      elim (instance_initialize-cases ev i made) [
        | inl e ↦ ground (arith, e)
        | inr e ↦
            elim (Option-cases (create_instances create_handler ev fd notify_fd n (suc i) s)) [
              | inl f ↦ ground (arith, e, f)
              | inr (rest, f) ↦
                  let (k, a) = create_instances-Made ev fd notify_fd n (suc i) s rest f in
                  let made1 = record made { ev_base = true; ev_http = true } in
                  let g : made1 ∷ rest ≡ l = ground (arith, e, f, h) in
                  subst (λ l. (length l ≡ suc n) × All (Serves s) l) g
                    (ap suc k, (server_instance-Serves s made1 refl refl, a))
            ]
      ]

  -- A socket that `bind_socket` made and could not bind, listen on, or make nonblocking.
  abbrev pub Leaks : System → Server F H → List ℕ → List ℕ → Type 0
  Leaks os s opened opened1 =
      (nfd : ℕ) × (os.socket opened ≡ some nfd)
      × (opened1 ≡ nfd ∷ opened)
      × (bind_socket os s.port 10240 opened ≡ (none, opened1))

  -- The server has its sockets and no thread yet, and closing the sockets leaves `opened`.
  abbrev pub IsReady : Server F H → List ℕ → List ℕ → Type 0
  IsReady s opened1 opened =
      (fd : ℕ) × (a : ℕ) × (b : ℕ) × (s.fd ≡ some fd)
      × (s.notify_fd ≡ some (a, b))
      × (s.instance_threads ≡ [])
      × ((x : ℕ) → contains x (close b (close a (close fd opened1))) ≡ contains x opened)

  abbrev pub Initialized : System → Server F H → List ℕ → Status × Server F H × List ℕ → Type 0
  Initialized os s opened (ret, s1, opened1) =
      (((ret ≡ Status.success)
          × (length s1.instances ≡ s.thread_num)
          × All (Serves s) s1.instances
          × IsReady s1 opened1 opened)
        ⊎ ((ret ≡ Status.failure)
            × IsNew s1
            × (((x : ℕ) → contains x opened1 ≡ contains x opened) ⊎ Leaks os s opened opened1)))

  initialize_bound-Initialized :
      (os : System) (ev : Events) (s : Server F H) (fd : ℕ) (opened : List ℕ)
      → IsFresh os
      → IsNew s
      → contains fd opened ≡ false
      → Initialized os s opened (initialize_bound create_handler os ev s fd (fd ∷ opened))
  unfolding initialize_bound
  initialize_bound-Initialized os ev s fd opened f n fresh =
      elim (Option-cases (os.socketpair (fd ∷ opened))) [
        | inl g ↦
            rw (initialize_bound, g)
              (inr (refl, (refl, refl, n.2, n.3), inl (λ x. contains-closed_one x fd opened fresh)))
        | inr ((a, b), g) ↦
            let (u, v) = f.of_pair (fd ∷ opened) a b g in
            elim (Option-cases (create_instances create_handler ev fd a s.thread_num 0 s)) [
              | inl h ↦
                  rw (initialize_bound, g, h)
                    (inr (
                      refl,
                      (refl, refl, refl, n.3),
                      inl (λ x. contains-closed x fd a b opened fresh u v),
                    ))
              | inr (l, h) ↦
                  let m = create_instances-Made ev fd a s.thread_num 0 s l h in
                  rw (initialize_bound, g, h, n.2)
                    (inl (
                      refl,
                      m.0,
                      m.1,
                      (fd, a, b, refl, refl, n.3, λ x. contains-closed x fd a b opened fresh u v),
                    ))
            ]
      ]

  -- A new server is initialized with `thread_num` threads, each of which calls for every path the
  -- handler that the factory bound to the path has made, and answers other paths with 404; or
  -- `initialize` fails, and leaves a new server with no thread. Then every descriptor that it has
  -- opened is closed again, except for a socket that `bind_socket` could not make ready. The
  -- operating system must return descriptors that were not open.
  pub initialize-Initialized :
      (os : System) (ev : Events) (s : Server F H) (opened : List ℕ)
      → IsFresh os
      → IsNew s
      → Initialized os s opened (initialize create_handler os ev s opened)
  unfolding initialize
  initialize-Initialized os ev s opened f n = elim (bind_socket-cases os s.port 10240 opened) [
    | inl e ↦
        was (Status.failure, record s { fd = none }, opened)
          (rw (initialize, ap first e, ap second e) refl)
          (inr (refl, (refl, n.1, n.2, n.3), inl (λ x. refl)))
    | inr (nfd, k, inr e) ↦
        was (Status.failure, record s { fd = none }, nfd ∷ opened)
          (rw (initialize, ap first e, ap second e) refl)
          (inr (refl, (refl, n.1, n.2, n.3), inr (nfd, k, refl, e)))
    | inr (nfd, k, inl e) ↦
        was (initialize_bound create_handler os ev s nfd (nfd ∷ opened))
          (rw (initialize, ap first e, ap second e) refl)
          (initialize_bound-Initialized os ev s nfd opened f n (f.of_socket opened nfd k))
  ]
    where
      was :
          (r : Status × Server F H × List ℕ)
          → initialize create_handler os ev s opened ≡ r
          → Initialized os s opened r
          → Initialized os s opened (initialize create_handler os ev s opened)
      was r e i = subst (Initialized os s opened) (sym e) i
