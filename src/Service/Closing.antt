-- ===== src/Service/Closing.antt =====
-- How often a thread of the server asks for its connections to be closed.
use Prim.Native.String.{String}
use mathlib.Core.Path.{subst}
use red_giant.Prelude.{
  ℕ, suc, ◌+◌, ◌*◌, ◌≤◌, ◌<◌, ◌≡◌, refl, ap, true, false, List, [], ◌∷◌, arith, if◌then◌else◌, ltb,
  ◌&&◌, length, Option-cases, Bool-cases, inl, inr,
}
use red_giant.Key.Names.{find}
use red_giant.Feature.Spaces.{Status}
use red_giant.Service.Instance.{
  ServerInstance, RequestUri, no_uri, no_path, with_path, Dispatch, send_error, handle_request,
  count_request, on_path, on_request, event_base_dispatch, run,
}

module _ {H : Type 0} where
  -- The requests that a handler was called for, and those of them that close the connection.
  abbrev pub handled : List (Dispatch H) → ℕ
  handled [] = 0
  handled (send_error code ∷ l) = handled l
  handled (handle_request handler close ∷ l) = suc (handled l)

  abbrev pub closings : List (Dispatch H) → ℕ
  closings [] = 0
  closings (send_error code ∷ l) = closings l
  closings (handle_request handler close ∷ l) = let n = closings l in if close then suc n else n

  abbrev Counts : ℕ → ℕ → List (Dispatch H) → ServerInstance H → Type 0
  Counts max count answers s1 =
      (s1.max_req_per_thread ≡ max)
      × (s1.handle_count ≤ max)
      × (closings answers * suc max + s1.handle_count ≡ handled answers + count)

  on_path-Counts :
      (path : String) (l : List RequestUri) (s : ServerInstance H)
      → 0 < s.max_req_per_thread
      → s.handle_count ≤ s.max_req_per_thread
      → ((t : ServerInstance H)
          → t.max_req_per_thread ≡ s.max_req_per_thread
          → t.handle_count ≤ s.max_req_per_thread
          → let (answers, t1) = event_base_dispatch l t in
            Counts s.max_req_per_thread t.handle_count answers t1)
      → let (answer, s1) = on_path path s in
        let (answers, s2) = event_base_dispatch l s1 in
        Counts s.max_req_per_thread s.handle_count (answer ∷ answers) s2
  unfolding on_path count_request
  on_path-Counts path l s p h next =
      let c = suc s.handle_count in
      let again = record s { handle_count = 0 } in
      let further = record s { handle_count = c } in
      elim (Option-cases (find path s.route_map)) [
        | inl e ↦ rw (on_path, e) (next s refl h)
        | inr (handler, e) ↦ elim (Bool-cases (ltb s.max_req_per_thread c)) [
          | inl k ↦
              let n = next again refl (omega arith) in
              let t : (ltb 0 s.max_req_per_thread && ltb s.max_req_per_thread c) ≡ true =
                ground (arith, k) in
              rw (on_path, e, count_request, t)
                (
                  n.0,
                  n.1,
                  let m : s.max_req_per_thread ≤ s.handle_count = ground (arith, k) in
                      omega (arith, n.2, h, m),
                )
          | inr k ↦
              let n = next further refl (ground (arith, k)) in
              let t : (ltb 0 s.max_req_per_thread && ltb s.max_req_per_thread c) ≡ false =
                ground (arith, k) in
              rw (on_path, e, count_request, t) (n.0, n.1, omega (arith, n.2))
        ]
      ]

  length-event_base_dispatch :
      (requests : List RequestUri) (s : ServerInstance H)
      → length (event_base_dispatch requests s).0 ≡ length requests
  unfolding event_base_dispatch
  length-event_base_dispatch [] s = refl
  length-event_base_dispatch (req ∷ l) s =
      ap suc (length-event_base_dispatch l (on_request req s).1)

  event_base_dispatch-Counts :
      (requests : List RequestUri) (s : ServerInstance H)
      → 0 < s.max_req_per_thread
      → s.handle_count ≤ s.max_req_per_thread
      → let (answers, s1) = event_base_dispatch requests s in
        Counts s.max_req_per_thread s.handle_count answers s1
  unfolding event_base_dispatch on_request
  event_base_dispatch-Counts [] s p h = (refl, h, omega arith)
  event_base_dispatch-Counts (no_uri ∷ l) s p h = event_base_dispatch-Counts l s p h
  event_base_dispatch-Counts (no_path ∷ l) s p h = on_path-Counts "/" l s p h (λ t m k.
      subst (λ m. Counts m t.handle_count (event_base_dispatch l t).0 (event_base_dispatch l t).1) m
        (event_base_dispatch-Counts l t (omega (arith, m, p)) (omega (arith, m, k))))
  event_base_dispatch-Counts (with_path path ∷ l) s p h = on_path-Counts path l s p h (λ t m k.
      subst (λ m. Counts m t.handle_count (event_base_dispatch l t).0 (event_base_dispatch l t).1) m
        (event_base_dispatch-Counts l t (omega (arith, m, p)) (omega (arith, m, k))))

  -- An initialized thread of the server answers all its requests, and closes a connection at each
  -- `max_req_per_thread + 1`st request that it has a handler for, whatever the connections are:
  -- where the maximum is not 0, the closings times one more than it are as many as the requests
  -- handled, less a rest that is at most the maximum.
  pub run-closings :
      (requests : List RequestUri) (s : ServerInstance H)
      → s.ev_base ≡ true
      → s.ev_http ≡ true
      → 0 < s.max_req_per_thread
      → let (ret, answers, s1) = run requests s in
        (ret ≡ Status.success)
        × (length answers ≡ length requests)
        × (closings answers * suc s.max_req_per_thread ≤ handled answers)
        × (handled answers ≤ closings answers * suc s.max_req_per_thread + s.max_req_per_thread)
  unfolding run
  run-closings requests s b w p =
      let s0 = record s { handle_count = 0 } in
      let c = event_base_dispatch-Counts requests s0 p (omega arith) in
      let e : (s.ev_base && s.ev_http) ≡ true = ground (arith, b, w) in
      rw e
        (refl, length-event_base_dispatch requests s0, omega (arith, c.2), omega (arith, c.1, c.2))
