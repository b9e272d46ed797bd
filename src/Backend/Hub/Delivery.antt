-- ===== src/Backend/Hub/Delivery.antt =====
-- Code: internal/server/websocket.go.
-- Which messages a client gets.
use mathlib.Core.List.{append_assoc, append-nil}
use vps_dashboard.Common.{
  ℕ, ◌≡◌, ◌≢◌, ◌⊎◌, refl, sym, subst, ap, ◌∙◌, arith, Bool, true, false, List, [], ◌∷◌, ◌++◌,
  any-append, length, ltb, ◌==◌, if◌then◌else◌, All, Bool-cases, inl, inr,
}
use vps_dashboard.Backend.Hub.{
  Channel, Hub, Outcome, running, panicked, HubEvent, joined, read_ended, unregistered, message,
  written, is_in, without, without_one, with_channel, register, unregister, sent_by, sent, and_then,
  send_all, took, hub_event, hub_run,
}
use vps_dashboard.Backend.Hub.Sound.{
  IsSound, Runs, Once, Runs-and_then, send-sent, sent-clients, sent-IsSound, hub_event-IsSound,
  is_in-without,
}

without_one-other :
    (ds : List ℕ) (c d : ℕ) → (d == c) ≡ false → is_in (without_one ds d) c ≡ is_in ds c
without_one-other [] c d h = refl
without_one-other (x ∷ ds) c d h = ground (arith, h, without_one-other ds c d h)

module _ {Msg : Type 0} where
  -- What went into the channel of a client, in its order.
  abbrev pub got : Hub Msg → ℕ → List Msg
  got h c = (h.channels c).taken ++ (h.channels c).queue

  abbrev pub messages : List (HubEvent Msg) → List Msg
  messages [] = []
  messages (message m ∷ es) = m ∷ messages es
  messages (joined ∷ es) = messages es
  messages (read_ended c ∷ es) = messages es
  messages (unregistered c ∷ es) = messages es
  messages (written c ∷ es) = messages es

  -- Run does not unregister the client.
  abbrev pub Spares : ℕ → HubEvent Msg → Type 0
  Spares c (unregistered d) = c ≢ d
  Spares c joined = Unit
  Spares c (read_ended d) = Unit
  Spares c (message m) = Unit
  Spares c (written d) = Unit

  -- The client is registered and got `ms`, or a goroutine waits to unregister it.
  abbrev Served : ℕ → List Msg → Hub Msg → Type 0
  Served c ms h = (is_in h.leaving c ≡ true) ⊎ ((is_in h.clients c ≡ true) × (got h c ≡ ms))

  sent-other :
      (h : Hub Msg) (c d : ℕ) (m : Msg) (ms : List Msg)
      → (d == c) ≡ false
      → Served c ms h
      → Served c ms (sent h d m)
  unfolding sent
  sent-other h c d m ms ne s = by_room (ltb (length (h.channels d).queue) 8) s
    where
      other : (c == d) ≡ false
      other = ground (arith, ne)

      by_room : (b : Bool) → Served c ms h → Served c ms (sent_by b h d m)
      by_room true (inl w) = inl w
      by_room true (inr (r, g)) = inr (r, rw other g)
      by_room false (inl w) = inl (ground (arith, w, any-append (λ x. x == c) h.leaving (d ∷ [])))
      by_room false (inr k) = inr k

  sent_self :
      (h : Hub Msg) (c : ℕ) (m : Msg) (ms : List Msg)
      → Served c ms h
      → Served c (ms ++ m ∷ []) (sent h c m)
  unfolding sent
  sent_self h c m ms s = by_room (ltb (length (h.channels c).queue) 8) s
    where
      same : (c == c) ≡ true
      same = ground arith

      by_room : (b : Bool) → Served c ms h → Served c (ms ++ m ∷ []) (sent_by b h c m)
      by_room true (inl w) = inl w
      by_room true (inr (r, g)) = inr (
        r,
        rw same (
            sym (append_assoc (h.channels c).taken (h.channels c).queue (m ∷ []))
            ∙ ap (λ l. l ++ m ∷ []) g),
      )
      by_room false s = inl (ground (arith, any-append (λ x. x == c) h.leaving (c ∷ [])))

  send_all-Served :
      (cs : List ℕ) (m : Msg) (c : ℕ) (ms : List Msg) (h : Hub Msg)
      → Once cs
      → IsSound h
      → ((d : ℕ) → is_in cs d ≡ true → is_in h.clients d ≡ true)
      → Served c ms h
      → Runs (Served c (if is_in cs c then ms ++ m ∷ [] else ms)) (send_all cs m h)
  unfolding send_all
  send_all-Served [] m c ms h once s all served = served
  send_all-Served (d ∷ cs) m c ms h once s all served =
      let all_later : (x : ℕ) → is_in cs x ≡ true → is_in (sent h d m).clients x ≡ true =
        λ x i. rw (sent-clients h d m) (all x (ground arith)) in
      let later : (ns : List Msg)
          → Served c ns (sent h d m)
          → Runs (Served c (if is_in cs c then ns ++ m ∷ [] else ns)) (send_all cs m (sent h d m)) =
        λ ns k. send_all-Served cs m c ns (sent h d m) once.1 (sent-IsSound h d m s) all_later k in
      rw (send-sent h d m (s.are_open d (all d (ground arith)))) (elim (Bool-cases (d == c)) [
        | inl same ↦
            let e : d ≡ c = ground arith in
            let last : is_in cs c ≡ false = subst (λ x. is_in cs x ≡ false) e once.0 in
            rw same (
              subst
                (λ b.
                  Runs (Served c (if b then (ms ++ m ∷ []) ++ m ∷ [] else ms ++ m ∷ []))
                    (send_all cs m (sent h d m)))
                last
                (later (ms ++ m ∷ []) (
                  subst (λ x. Served c (ms ++ m ∷ []) (sent h x m)) (sym e)
                    (sent_self h c m ms served))))
        | inr other ↦ rw other (later ms (sent-other h c d m ms other served))
      ])

  took-got :
      (ch : Channel Msg) (q : List Msg)
      → ch.queue ≡ q
      → (took ch q).taken ++ (took ch q).queue ≡ ch.taken ++ ch.queue
  took-got ch [] e = refl
  took-got ch (m ∷ q) e = append_assoc ch.taken (m ∷ []) q ∙ ap (ch.taken ++◌) (sym e)

  registered-Served :
      (h : Hub Msg) (c : ℕ) (ms : List Msg) → IsSound h → Served c ms h → Served c ms (register h)
  unfolding register
  registered-Served h c ms s (inl w) = inl w
  registered-Served h c ms s (inr (r, g)) =
      let old : (c == h.next) ≡ false = ground (arith, s.numbered c r) in
      inr (ground (arith, r, any-append (λ d. d == c) h.clients (h.next ∷ [])), rw old g)

  written-Served :
      (h : Hub Msg) (c d : ℕ) (ms : List Msg)
      → Served c ms h
      → Runs (Served c ms) (hub_event h (written d))
  unfolding hub_event
  written-Served h c d ms (inl w) = inl w
  written-Served h c d ms (inr (r, g)) = inr (r, by_client (c == d) refl)
    where
      by_client :
          (b : Bool)
          → b ≡ (c == d)
          → (if b then took (h.channels d) (h.channels d).queue else h.channels c).taken
              ++ (if b then took (h.channels d) (h.channels d).queue else h.channels c).queue
            ≡ ms
      by_client true e =
          let same : d ≡ c = ground (arith, e) in
          took-got (h.channels d) (h.channels d).queue refl ∙ ap (got h) same ∙ g
      by_client false e = g

  left-Served :
      (h : Hub Msg) (c d : ℕ) (ms : List Msg)
      → (d == c) ≡ false
      → IsSound h
      → Served c ms h
      → Runs (Served c ms) (unregister h d)
  unfolding unregister
  left-Served h c d ms ne s served = elim (Bool-cases (is_in h.clients d)) [
    | inl here ↦ rw (here, s.are_open d here) (gone served)
    | inr absent ↦ rw absent served
  ]
    where
      other : (c == d) ≡ false
      other = ground (arith, ne)

      gone :
          Served c ms h
          → Served c ms (record h {
            clients = without h.clients d;
            channels = with_channel h.channels d (record (h.channels d) { closed = true });
          })
      gone (inl w) = inl w
      gone (inr (r, g)) = inr (ground (arith, r, other, is_in-without h.clients d c), rw other g)

  message-Served :
      (h : Hub Msg) (c : ℕ) (m : Msg) (ms : List Msg)
      → IsSound h
      → Served c ms h
      → Runs (Served c (ms ++ m ∷ [])) (send_all h.clients m h)
  message-Served h c m ms s (inr (r, g)) =
      subst (λ b. Runs (Served c (if b then ms ++ m ∷ [] else ms)) (send_all h.clients m h)) r
        (send_all-Served h.clients m c ms h s.distinct s (λ d i. i) (inr (r, g)))
  message-Served h c m ms s (inl w) = elim (Bool-cases (is_in h.clients c)) [
    | inl here ↦
        subst (λ b. Runs (Served c (if b then ms ++ m ∷ [] else ms)) (send_all h.clients m h)) here
          (send_all-Served h.clients m c ms h s.distinct s (λ d i. i) (inl w))
    | inr gone ↦
        subst
          (λ b.
            Runs (Served c (if b then (ms ++ m ∷ []) ++ m ∷ [] else ms ++ m ∷ []))
              (send_all h.clients m h))
          gone (send_all-Served h.clients m c (ms ++ m ∷ []) h s.distinct s (λ d i. i) (inl w))
  ]

  event-Served :
      (h : Hub Msg) (c : ℕ) (e : HubEvent Msg) (ms : List Msg)
      → IsSound h
      → Spares c e
      → Served c ms h
      → Runs (Served c (ms ++ messages (e ∷ []))) (hub_event h e)
  unfolding hub_event
  event-Served h c joined ms s spares k = rw append-nil (registered-Served h c ms s k)
  event-Served h c (read_ended d) ms s spares (inl w) =
      inl (ground (arith, w, any-append (λ x. x == c) h.leaving (d ∷ [])))
  event-Served h c (read_ended d) ms s spares (inr k) = rw append-nil (inr k)
  event-Served h c (unregistered d) ms s spares k =
      let ne : (d == c) ≡ false = ground (arith, spares) in
      rw append-nil (elim (Bool-cases (is_in h.leaving d)) [
        | inl waiting ↦ rw waiting (
            left-Served (record h { leaving = without_one h.leaving d }) c d ms ne
              (record {
                are_open = s.are_open;
                numbered = s.numbered;
                distinct = s.distinct;
                bounded = s.bounded;
              })
              (fewer ne k))
        | inr nobody ↦ rw nobody k
      ])
    where
      fewer :
          (d == c) ≡ false
          → Served c ms h
          → Served c ms (record h { leaving = without_one h.leaving d })
      fewer ne (inl w) = inl (without_one-other h.leaving c d ne ∙ w)
      fewer ne (inr k) = inr k
  event-Served h c (message m) ms s spares k = message-Served h c m ms s k
  event-Served h c (written d) ms s spares k = rw append-nil (written-Served h c d ms k)

  Runs-both :
      (P Q : Hub Msg → Type 0) (o : Outcome Msg) → Runs P o → Runs Q o → Runs (λ g. P g × Q g) o
  Runs-both P Q (running g) p q = (p, q)
  Runs-both P Q panicked p q = p

  messages-cons :
      (e : HubEvent Msg) (es : List (HubEvent Msg))
      → messages (e ∷ es) ≡ messages (e ∷ []) ++ messages es
  messages-cons joined es = refl
  messages-cons (read_ended c) es = refl
  messages-cons (unregistered c) es = refl
  messages-cons (message m) es = refl
  messages-cons (written c) es = refl

  run-Served :
      (es : List (HubEvent Msg)) (h : Hub Msg) (c : ℕ) (ms : List Msg)
      → IsSound h
      → Served c ms h
      → All (Spares c) es
      → Runs (Served c (ms ++ messages es)) (hub_run h es)
  unfolding hub_run
  run-Served [] h c ms s k spares = rw append-nil k
  run-Served (e ∷ es) h c ms s k spares =
      let now = messages (e ∷ []) in
      let joined_up : ms ++ messages (e ∷ es) ≡ (ms ++ now) ++ messages es =
        ap (ms ++◌) (messages-cons e es) ∙ sym (append_assoc ms now (messages es)) in
      subst (λ l. Runs (Served c l) (and_then (hub_event h e) (λ g. hub_run g es))) (sym joined_up)
        (Runs-and_then (λ g. IsSound g × Served c (ms ++ now) g)
          (Served c ((ms ++ now) ++ messages es)) (hub_event h e) (λ g. hub_run g es)
          (Runs-both IsSound (Served c (ms ++ now)) (hub_event h e) (hub_event-IsSound h e s)
            (event-Served h c e ms s spares.0 k))
          (λ g k. run-Served es g c (ms ++ now) k.0 k.1 spares.1))

  -- In such a hub, over any events of which none unregisters a given registered client, that
  -- client stays registered and exactly the messages of the events went into its channel, in
  -- their order, after those before, whatever its write pump took; or a goroutine waits to
  -- unregister it.
  pub hub_run-Served :
      (es : List (HubEvent Msg)) (h : Hub Msg) (c : ℕ)
      → IsSound h
      → is_in h.clients c ≡ true
      → All (Spares c) es
      → Runs
          (λ g.
            (is_in g.leaving c ≡ true)
            ⊎ ((is_in g.clients c ≡ true) × (got g c ≡ got h c ++ messages es)))
          (hub_run h es)
  hub_run-Served es h c s here spares = run-Served es h c (got h c) s (inr (here, refl)) spares
