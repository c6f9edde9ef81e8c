-- ===== src/Dns/Socket.antt =====
-- make_socket_retry of main/dns_sinkhole.c: the sockets of dns_task. What the socket calls answer is an
-- argument, attempt by attempt.
use esp_hole.Base.{
  ℕ, ◌≡◌, refl, sym, ap, ◌∙◌, subst, inl, inr, Bool, true, false, ◌&&◌, ◌||◌, not, Option, none,
  some, List, [], ◌∷◌, ◌++◌, append-nil, append_assoc, if◌then◌else◌, Bool-cases, Option-cases, All,
}

-- What socket, bind and connect answer.
pub record Attempt : Type 0 where
  pub socket : Option ℕ
  pub bound : Bool
  pub connected : Bool

-- `binds` and `connects` say whether there is an address to bind to and to connect to.
abbrev pub serves : Bool → Bool → Attempt → Bool
serves binds connects a = (not binds || a.bound) && (not connects || a.connected)

-- The socket, and those that were closed, after those in `closed`; `none` while it still retries.
unfoldable pub make_socket_retry : Bool → Bool → List ℕ → List Attempt → Option (ℕ × List ℕ)
make_socket_retry binds connects closed [] = none
make_socket_retry binds connects closed (a ∷ attempts) = elim a.socket [
  | none ↦ make_socket_retry binds connects closed attempts
  | some sock ↦
      let retry = make_socket_retry binds connects (closed ++ sock ∷ []) attempts in
      if serves binds connects a then some (sock, closed) else retry
]

-- The sockets that the attempts open.
pub opened : List Attempt → List ℕ
opened [] = []
opened (a ∷ attempts) = elim a.socket [
  | none ↦ opened attempts
  | some sock ↦ sock ∷ opened attempts
]

-- An attempt that fails.
abbrev pub Fails : Bool → Bool → Attempt → Type 0
Fails binds connects a = (sock : ℕ) → a.socket ≡ some sock → serves binds connects a ≡ false

-- The result after these attempts.
abbrev pub Retried : Bool → Bool → List ℕ → List Attempt → Option (ℕ × List ℕ) → Type 0
Retried binds connects closed attempts none = All (Fails binds connects) attempts
Retried binds connects closed attempts (some (sock, closed')) =
    (failed : List Attempt) × (a : Attempt) × (later : List Attempt) × (attempts
      ≡ failed ++ a ∷ later)
    × All (Fails binds connects) failed
    × (a.socket ≡ some sock)
    × (serves binds connects a ≡ true)
    × (closed' ≡ closed ++ opened failed)

Retried-next :
    (binds connects : Bool) (closed closed1 : List ℕ) (a : Attempt) (attempts : List Attempt)
    (r : Option (ℕ × List ℕ))
    → Fails binds connects a
    → ((failed : List Attempt) → closed1 ++ opened failed ≡ closed ++ opened (a ∷ failed))
    → Retried binds connects closed1 attempts r
    → Retried binds connects closed (a ∷ attempts) r
Retried-next binds connects closed closed1 a attempts none f e all = (f, all)
Retried-next binds connects closed closed1 a attempts (some (sock, closed')) f e
      (failed, b, later, split, all, own, good, done) =
    (a ∷ failed, b, later, ap (◌∷◌ a) split, (f, all), own, good, done ∙ e failed)

retry_none :
    (binds connects : Bool) (closed : List ℕ) (a : Attempt) (attempts : List Attempt)
    → a.socket ≡ none
    → make_socket_retry binds connects closed (a ∷ attempts)
      ≡ make_socket_retry binds connects closed attempts
unfolding make_socket_retry
retry_none binds connects closed a attempts e = simp e

retry_good :
    (binds connects : Bool) (closed : List ℕ) (a : Attempt) (attempts : List Attempt) (sock : ℕ)
    → a.socket ≡ some sock
    → serves binds connects a ≡ true
    → make_socket_retry binds connects closed (a ∷ attempts) ≡ some (sock, closed)
unfolding make_socket_retry
retry_good binds connects closed a attempts sock e good = simp (e, good)

retry_bad :
    (binds connects : Bool) (closed : List ℕ) (a : Attempt) (attempts : List Attempt) (sock : ℕ)
    → a.socket ≡ some sock
    → serves binds connects a ≡ false
    → make_socket_retry binds connects closed (a ∷ attempts)
      ≡ make_socket_retry binds connects (closed ++ sock ∷ []) attempts
unfolding make_socket_retry
retry_bad binds connects closed a attempts sock e bad = simp (e, bad)

opened_none :
    (a : Attempt) (failed : List Attempt) → a.socket ≡ none → opened (a ∷ failed) ≡ opened failed
unfolding opened
opened_none a failed e = simp e

opened_some :
    (a : Attempt) (failed : List Attempt) (sock : ℕ)
    → a.socket ≡ some sock
    → opened (a ∷ failed) ≡ sock ∷ opened failed
unfolding opened
opened_some a failed sock e = simp e

-- The first attempt that gives a socket which binds and connects where it has to is the one that is used, and
-- exactly the sockets of the attempts before it were closed, each once and in order; without such an
-- attempt the retries go on.
pub make_socket_retry-Retried :
    (binds connects : Bool) (closed : List ℕ) (attempts : List Attempt)
    → Retried binds connects closed attempts (make_socket_retry binds connects closed attempts)
make_socket_retry-Retried binds connects closed [] = unfold make_socket_retry in tt
make_socket_retry-Retried binds connects closed (a ∷ attempts) = elim (Option-cases a.socket) [
  | inl e ↦
      let more = make_socket_retry-Retried binds connects closed attempts in
      subst (Retried binds connects closed (a ∷ attempts))
        (sym (retry_none binds connects closed a attempts e))
        (Retried-next binds connects closed closed a attempts _ (λ sock own. cc (e, own))
          (λ failed. ap (λ (x : List ℕ). closed ++ x) (sym (opened_none a failed e))) more)
  | inr (sock, e) ↦ elim (Bool-cases (serves binds connects a)) [
    | inl good ↦
        subst (Retried binds connects closed (a ∷ attempts))
          (sym (retry_good binds connects closed a attempts sock e good))
          ([], a, attempts, refl, tt, e, good, unfold opened in sym (append-nil closed))
    | inr bad ↦
        let more = make_socket_retry-Retried binds connects (closed ++ sock ∷ []) attempts in
        subst (Retried binds connects closed (a ∷ attempts))
          (sym (retry_bad binds connects closed a attempts sock e bad))
          (Retried-next binds connects closed (closed ++ sock ∷ []) a attempts _ (λ _ _. bad)
            (λ failed.
              append_assoc closed (sock ∷ []) (opened failed)
              ∙ ap (λ (x : List ℕ). closed ++ x) (sym (opened_some a failed sock e)))
            more)
  ]
]
