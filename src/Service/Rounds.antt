-- ===== src/Service/Rounds.antt =====
-- The server over any number of rounds: initialized, started, stopped.
use red_giant.Prelude.{ℕ, ◌≡◌, List, [], ◌∷◌, contains}
use red_giant.Feature.Spaces.{Status}
use red_giant.Service.Instance.{Events}
use red_giant.Service.Server.{System, Server, start, stop, initialize}
use red_giant.Service.Lifecycle.{IsNew}

module _ {F : Type 0} {H : Type 0} (create_handler : F → H) where
  -- A server is initialized, and started and stopped where this succeeds, once for each answer of
  -- libevent in a list.
  abbrev serve_once : System → Status × Server F H × List ℕ → Server F H × List ℕ
  serve_once os (Status.success, s, opened) =
      let (ret, s1, opened1) = stop os (start s).1 opened in (s1, opened1)
  serve_once os (Status.failure, s, opened) = (s, opened)
  serve_once os (Status.asserts, s, opened) = (s, opened)

  abbrev pub serve_rounds : System → List Events → Server F H → List ℕ → Server F H × List ℕ
  serve_rounds os [] s opened = (s, opened)
  serve_rounds os (ev ∷ l) s opened =
      let (s1, opened1) = serve_once os (initialize create_handler os ev s opened) in
      serve_rounds os l s1 opened1

  abbrev IsBack : List ℕ → Server F H × List ℕ → Type 0
  IsBack opened (s, opened1) =
      IsNew create_handler s × ((x : ℕ) → contains x opened1 ≡ contains x opened)
