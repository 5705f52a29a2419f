-- ===== src/Server/Leak.antt =====
-- The memory of the server of src/server.hpp.
use trctl.Base.{
  ℕ, ◌+◌, ◌-◌, ◌*◌, ◌≤◌, ◌<◌, ◌≡◌, refl, subst, sym, ap, ◌∙◌, inl, inr, true, false, Option, none,
  some, List, [], ◌∷◌, ◌++◌, ◌==◌, arith, Option-cases, Bool-cases,
}
use trctl.Server.{
  ServerClient, Server, Memory, rx_size, Event, connection, closed_read, closed_unaccepted, without,
  give_back, drop_client, remove_client, new_client, commit_client, happen, run,
}

-- A memory of `size` bytes, that counts in `held` what was taken and not given back.
pub record Counts {M : Type 0} (memory : Memory M) (held : M → ℕ) (size : ℕ) : Type 0 where
  pub allocates : (m m' : M) (n a : ℕ) → memory.allocate m n ≡ some (a, m') → held m' ≡ held m + n
  pub deallocates : (m : M) (a n : ℕ) → held (memory.deallocate m a n) ≡ held m - n
  pub bounded : (m : M) → held m ≤ size

-- How many connections came without an error.
abbrev pub connected : Event → ℕ
connected (connection false accepted) = 0
connected (connection true accepted) = 1
connected (closed_read c) = 0
connected (closed_unaccepted c) = 0

abbrev pub connections : List Event → ℕ
connections [] = 0
connections (e ∷ es) = connected e + connections es

module _ {M : Type 0} (memory : Memory M) (node_size : ℕ) (held : M → ℕ) (size : ℕ)
    (counts : Counts memory held size) where
  -- The bytes of the nodes of some clients.
  abbrev nodes : List ServerClient → ℕ
  nodes [] = 0
  nodes (x ∷ xs) = node_size + nodes xs

  nodes-append :
      (xs : List ServerClient) (x : ServerClient) → nodes (xs ++ (x ∷ [])) ≡ nodes xs + node_size
  nodes-append [] x = omega arith
  nodes-append (y ∷ ys) x = omega (arith, nodes-append ys x)

  give_back-held :
      (mem : M) (xs : List ServerClient) (c : ℕ)
      → nodes xs ≤ held mem
      → held (give_back memory node_size mem xs c) + nodes xs ≡ held mem + nodes (without xs c)
  unfolding give_back without
  give_back-held mem [] c h = refl
  give_back-held mem (x ∷ xs) c h =
      let mem' = memory.deallocate mem x.address node_size in
      let fewer = counts.deallocates mem x.address node_size in
      elim (Bool-cases (x.address == c)) [
        | inl e ↦
            rw (e, give_back, without)
              (omega (arith, fewer, h, give_back-held mem' xs c (omega (arith, fewer, h))))
        | inr e ↦
            rw (e, give_back, without)
              (omega (arith, h, give_back-held mem xs c (omega (arith, h))))
      ]

  -- The server holds `kept` bytes besides the nodes of its clients.
  abbrev Holds : Server M → ℕ → Type 0
  Holds s kept = held s.mem ≡ kept + nodes s.clients

  drop_client-Holds :
      (s : Server M) (c kept : ℕ) → Holds s kept → Holds (drop_client memory node_size s c) kept
  unfolding drop_client
  drop_client-Holds s c kept h =
      omega (arith, h, give_back-held s.mem s.clients c (omega (arith, h)))

  -- If the server goes on, it does so with `kept` bytes.
  abbrev Goes : Option (Server M) → ℕ → Type 0
  Goes none kept = Unit {0}
  Goes (some s) kept = Holds s kept

  abbrev Makes : Option (ℕ × Server M) → ℕ → Type 0
  Makes none kept = Unit {0}
  Makes (some (c, s)) kept = Holds s kept

  new_client-Makes :
      (s : Server M) (kept : ℕ)
      → Holds s kept
      → Makes (new_client memory node_size s) (kept + rx_size)
  unfolding new_client
  new_client-Makes s kept h = elim (Option-cases (memory.allocate s.mem rx_size)) [
    | inl full ↦ rw (full, new_client) tt
    | inr ((buffer, mem), got) ↦ elim (Option-cases (memory.allocate mem node_size)) [
      | inl full ↦ rw (got, new_client, full) tt
      | inr ((node, mem'), got') ↦
          let one = counts.allocates s.mem mem rx_size buffer got in
          let two = counts.allocates mem mem' node_size node got' in
          rw (got, new_client, got')
            (omega (
              arith,
              h,
              one,
              two,
              nodes-append s.clients (record { address = node; rx_buffer = buffer }),
            ))
    ]
  ]

  happen-Goes :
      (s : Server M) (e : Event) (kept : ℕ)
      → Holds s kept
      → Goes (happen memory node_size s e) (kept + connected e * rx_size)
  unfolding happen commit_client remove_client
  happen-Goes s (connection false accepted) kept h = omega (arith, h)
  happen-Goes s (closed_read c) kept h =
      omega
        (arith, drop_client-Holds (record s { disc_events = s.disc_events ++ (c ∷ []) }) c kept h)
  happen-Goes s (closed_unaccepted c) kept h = omega (arith, drop_client-Holds s c kept h)
  happen-Goes s (connection true accepted) kept h =
      let made = new_client-Makes s kept h in
      elim (Option-cases (new_client memory node_size s)) [
        | inl full ↦ rw (full, happen) tt
        | inr ((c, s'), got) ↦
            let now : Holds s' (kept + rx_size) = subst (λ m. Makes m (kept + rx_size)) got made in
            rw (got, happen)
              (elim (Bool-cases accepted) [
                | inl e ↦ rw e (omega (arith, now))
                | inr e ↦ rw e (omega (arith, now))
              ])
      ]

  run-Goes :
      (es : List Event) (s : Server M) (kept : ℕ)
      → Holds s kept
      → Goes (run memory node_size s es) (kept + connections es * rx_size)
  unfolding run
  run-Goes [] s kept h = omega (arith, h)
  run-Goes (e ∷ es) s kept h =
      let goes = happen-Goes s e kept h in
      elim (Option-cases (happen memory node_size s e)) [
        | inl thrown ↦ rw (thrown, run) tt
        | inr (s', got) ↦
            let now : Holds s' (kept + connected e * rx_size) =
              subst (λ m. Goes m (kept + connected e * rx_size)) got goes in
            let total : kept + connected e * rx_size + connections es * rx_size
                ≡ kept + connections (e ∷ es) * rx_size =
              omega arith in
            rw (got, run)
              (subst (λ n. Goes (run memory node_size s' es) n) total
                (run-Goes es s' (kept + connected e * rx_size) now))
      ]

  -- The buffer of a connection is never given back: a server that starts with no client and all its memory free
  -- throws, out of a callback, in any run in which the buffers of all connections that came, also of those
  -- that were closed, exceed the size of its memory.
  pub run-throws :
      (s : Server M) (es : List Event)
      → held s.mem ≡ 0
      → s.clients ≡ []
      → size < connections es * rx_size
      → run memory node_size s es ≡ none
  run-throws s es fresh alone over =
      let start : Holds s 0 = fresh ∙ sym (ap (λ xs. 0 + nodes xs) alone) in
      let goes = run-Goes es s 0 start in
      elim (Option-cases (run memory node_size s es)) [
        | inl thrown ↦ thrown
        | inr (s', e) ↦
            let now : Holds s' (0 + connections es * rx_size) =
              subst (λ m. Goes m (0 + connections es * rx_size)) e goes in
            absurd (omega (arith, now, over, counts.bounded s'.mem))
      ]
