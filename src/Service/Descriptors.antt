-- ===== src/Service/Descriptors.antt =====
-- service/server.cc: the descriptors that are open while the server makes and closes its sockets.
use red_giant.Prelude.{
  ℕ, ◌≡◌, ◌⊎◌, inl, inr, false, not, ◌&&◌, Option, none, some, List, [], ◌∷◌, arith, ◌==◌, ==_iff,
  contains, Option-cases, Bool-cases,
}
use red_giant.Service.Server.{System, close, bind_socket}

-- What the operating system promises: it returns descriptors that were not open.
pub record IsFresh (os : System) : Type 0 where
  pub of_socket :
      (opened : List ℕ) (fd : ℕ) → os.socket opened ≡ some fd → contains fd opened ≡ false
  pub of_pair :
      (opened : List ℕ) (a b : ℕ)
      → os.socketpair opened ≡ some (a, b)
      → (contains a opened ≡ false) × (contains b opened ≡ false)

contains-close : (x fd : ℕ) (l : List ℕ) → contains x (close fd l) ≡ not (fd == x) && contains x l
unfolding close
contains-close x fd [] = ground arith
contains-close x fd (y ∷ l) = ground (arith, contains-close x fd l)

-- What is opened by `initialize`, and closed again.
pub contains-closed :
    (x fd a b : ℕ) (l : List ℕ)
    → contains fd l ≡ false
    → contains a (fd ∷ l) ≡ false
    → contains b (fd ∷ l) ≡ false
    → contains x (close b (close a (close fd (a ∷ b ∷ fd ∷ l)))) ≡ contains x l
contains-closed x fd a b l f g h = ground (
  arith,
  contains-close x b (close a (close fd (a ∷ b ∷ fd ∷ l))),
  contains-close x a (close fd (a ∷ b ∷ fd ∷ l)),
  contains-close x fd (a ∷ b ∷ fd ∷ l),
  ==_iff a x,
  ==_iff b x,
  ==_iff fd x,
  f,
  g,
  h,
)

pub contains-closed_one :
    (x fd : ℕ) (l : List ℕ) → contains fd l ≡ false → contains x (close fd (fd ∷ l)) ≡ contains x l
contains-closed_one x fd l f = ground (arith, contains-close x fd (fd ∷ l), ==_iff fd x, f)

abbrev pub first : Option ℕ × List ℕ → Option ℕ
first r = r.0

abbrev pub second : Option ℕ × List ℕ → List ℕ
second r = r.1

pub bind_socket-cases :
    (os : System) (port backlog : ℕ) (opened : List ℕ)
    → (bind_socket os port backlog opened ≡ (none, opened))
      ⊎ ((nfd : ℕ) × (os.socket opened ≡ some nfd)
          × ((bind_socket os port backlog opened ≡ (some nfd, nfd ∷ opened))
              ⊎ (bind_socket os port backlog opened ≡ (none, nfd ∷ opened))))
unfolding bind_socket
bind_socket-cases os port backlog opened = elim (Option-cases (os.socket opened)) [
  | inl e ↦ inl (ground (arith, e))
  | inr (nfd, e) ↦ elim (Option-cases (os.get_flags nfd)) [
    | inl f ↦ inr (nfd, e, inr (ground (arith, e, f)))
    | inr (flags, f) ↦
        elim (Bool-cases
          (os.bind nfd port && os.listen nfd backlog && os.set_nonblocking nfd flags)) [
            | inl k ↦ inr (nfd, e, inl (ground (arith, e, f, k)))
            | inr k ↦ inr (nfd, e, inr (ground (arith, e, f, k)))
          ]
  ]
]
