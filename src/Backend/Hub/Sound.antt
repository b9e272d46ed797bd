-- ===== src/Backend/Hub/Sound.antt =====
-- Code: internal/server/websocket.go.
-- The hub never sends on a closed channel and never closes one twice.
use vps_dashboard.Common.{
  ℕ, ◌≤◌, ◌<◌, ◌≡◌, refl, ap, arith, Bool, true, false, not, ◌&&◌, List, [], ◌∷◌, ◌++◌, any-append,
  length, length-append, ltb, ◌==◌, if◌then◌else◌, Bool-cases, inl, inr,
}
use vps_dashboard.Backend.Hub.{
  Channel, Hub, Outcome, running, panicked, HubEvent, joined, read_ended, unregistered, message,
  written, is_in, without, without_one, register, unregister, sent_by, sent, send, and_then,
  send_all, took, hub_event, hub_run,
}

pub is_in-without : (cs : List ℕ) (c d : ℕ) → is_in (without cs c) d ≡ (is_in cs d && not (d == c))
is_in-without [] c d = refl
is_in-without (x ∷ cs) c d = ground (arith, is_in-without cs c d)

-- No client stands twice in the list, as in the keys of a map.
abbrev pub Once : List ℕ → Type 0
Once [] = Unit
Once (c ∷ cs) = (is_in cs c ≡ false) × Once cs

Once-without : (cs : List ℕ) (c : ℕ) → Once cs → Once (without cs c)
Once-without [] c h = tt
Once-without (x ∷ cs) c h = ground (arith, Once-without cs c h.1, is_in-without cs c x)

Once-concat : (cs : List ℕ) (c : ℕ) → is_in cs c ≡ false → Once cs → Once (cs ++ c ∷ [])
Once-concat [] c h k = (refl, tt)
Once-concat (x ∷ cs) c h k =
    ground (arith, Once-concat cs c (ground arith) k.1, any-append (λ d. d == x) cs (c ∷ []))

module _ {Msg : Type 0} where
  -- The channel of each registered client is open, and every client was numbered.
  pub record IsSound (h : Hub Msg) : Type 0 where
    pub are_open : (c : ℕ) → is_in h.clients c ≡ true → (h.channels c).closed ≡ false
    pub numbered : (c : ℕ) → is_in h.clients c ≡ true → c < h.next
    pub distinct : Once h.clients
    pub bounded : (c : ℕ) → length (h.channels c).queue ≤ 8

  abbrev pub Runs : (Hub Msg → Type 0) → Outcome Msg → Type 0
  Runs P (running h) = P h
  Runs P panicked = ⊥

  pub register-IsSound : (h : Hub Msg) → IsSound h → IsSound (register h)
  unfolding register
  register-IsSound h s = record {
    are_open =
        λ c i. ground (arith, s.are_open c, any-append (λ d. d == c) h.clients (h.next ∷ []));
    numbered =
        λ c i. ground (arith, s.numbered c, any-append (λ d. d == c) h.clients (h.next ∷ []));
    distinct = Once-concat h.clients h.next (ground (arith, s.numbered h.next)) s.distinct;
    bounded = λ c. ground (arith, s.bounded c);
  }

  unregister-IsSound : (h : Hub Msg) (c : ℕ) → IsSound h → Runs IsSound (unregister h c)
  unfolding unregister
  unregister-IsSound h c s = elim (Bool-cases (is_in h.clients c)) [
    | inl here ↦
        rw (here, s.are_open c here)
          (record {
            are_open = λ d i. ground (arith, s.are_open d, is_in-without h.clients c d);
            numbered = λ d i. ground (arith, s.numbered d, is_in-without h.clients c d);
            distinct = Once-without h.clients c s.distinct;
            bounded = λ d. ground (arith, s.bounded d, s.bounded c);
          })
    | inr gone ↦ rw gone s
  ]

  pub send-sent :
      (h : Hub Msg) (c : ℕ) (m : Msg)
      → (h.channels c).closed ≡ false
      → send h c m ≡ running (sent h c m)
  unfolding send
  send-sent h c m e = ap (λ b. if b then panicked else running (sent h c m)) e

  pub sent-clients : (h : Hub Msg) (c : ℕ) (m : Msg) → (sent h c m).clients ≡ h.clients
  unfolding sent
  sent-clients h c m = same (ltb (length (h.channels c).queue) 8)
    where
      same : (b : Bool) → (sent_by b h c m).clients ≡ h.clients
      same true = refl
      same false = refl

  pub sent-IsSound : (h : Hub Msg) (c : ℕ) (m : Msg) → IsSound h → IsSound (sent h c m)
  unfolding sent
  sent-IsSound h c m s = elim (Bool-cases (ltb (length (h.channels c).queue) 8)) [
    | inl room ↦ rw room (record {
      are_open = λ d i. ground (arith, s.are_open d i, s.are_open c);
      numbered = s.numbered;
      distinct = s.distinct;
      bounded = λ d. ground (arith, s.bounded d, length-append (h.channels c).queue (m ∷ []));
    })
    | inr full ↦ rw full (record {
      are_open = s.are_open;
      numbered = s.numbered;
      distinct = s.distinct;
      bounded = s.bounded;
    })
  ]

  send_all-IsSound :
      (cs : List ℕ) (m : Msg) (h : Hub Msg)
      → IsSound h
      → ((c : ℕ) → is_in cs c ≡ true → is_in h.clients c ≡ true)
      → Runs IsSound (send_all cs m h)
  unfolding send_all
  send_all-IsSound [] m h s all = s
  send_all-IsSound (c ∷ cs) m h s all = rw (send-sent h c m (s.are_open c (all c (ground arith)))) (
      send_all-IsSound cs m (sent h c m) (sent-IsSound h c m s)
        (λ d i. rw (sent-clients h c m) (all d (ground arith))))

  took-length :
      (ch : Channel Msg) (q : List Msg)
      → ch.queue ≡ q
      → length ch.queue ≤ 8
      → length (took ch q).queue ≤ 8
  took-length ch [] e h = h
  took-length ch (m ∷ q) e h = omega (arith, ap length e, h)

  pub took-closed : (ch : Channel Msg) (q : List Msg) → (took ch q).closed ≡ ch.closed
  took-closed ch [] = refl
  took-closed ch (m ∷ q) = refl

  pub hub_event-IsSound :
      (h : Hub Msg) (e : HubEvent Msg) → IsSound h → Runs IsSound (hub_event h e)
  unfolding hub_event
  hub_event-IsSound h joined s = register-IsSound h s
  hub_event-IsSound h (read_ended c) s = record {
    are_open = s.are_open;
    numbered = s.numbered;
    distinct = s.distinct;
    bounded = s.bounded;
  }
  hub_event-IsSound h (unregistered c) s = elim (Bool-cases (is_in h.leaving c)) [
    | inl waiting ↦ rw waiting (
        unregister-IsSound (record h { leaving = without_one h.leaving c }) c
          (record {
            are_open = s.are_open;
            numbered = s.numbered;
            distinct = s.distinct;
            bounded = s.bounded;
          }))
    | inr nobody ↦ rw nobody s
  ]
  hub_event-IsSound h (message m) s = send_all-IsSound h.clients m h s (λ c i. i)
  hub_event-IsSound h (written c) s = record {
    are_open = λ d i.
        ground
          (arith, s.are_open d i, took-closed (h.channels c) (h.channels c).queue, s.are_open c);
    numbered = s.numbered;
    distinct = s.distinct;
    bounded = λ d.
        ground
          (arith, s.bounded d, took-length (h.channels c) (h.channels c).queue refl (s.bounded c));
  }

  pub Runs-and_then :
      (P Q : Hub Msg → Type 0) (o : Outcome Msg) (f : Hub Msg → Outcome Msg)
      → Runs P o
      → ((g : Hub Msg) → P g → Runs Q (f g))
      → Runs Q (and_then o f)
  Runs-and_then P Q (running g) f h k = k g h
  Runs-and_then P Q panicked f h k = absurd h

  -- From a hub where the channel of every registered client is open, each client was numbered,
  -- none is registered twice and no channel holds more than eight messages, no sequence of
  -- events leads to a panic, a send on a closed channel or a second close, and all this holds
  -- afterwards.
  pub hub_run-IsSound :
      (es : List (HubEvent Msg)) (h : Hub Msg) → IsSound h → Runs IsSound (hub_run h es)
  unfolding hub_run
  hub_run-IsSound [] h s = s
  hub_run-IsSound (e ∷ es) h s =
      Runs-and_then IsSound IsSound (hub_event h e) (λ g. hub_run g es) (hub_event-IsSound h e s)
        (λ g k. hub_run-IsSound es g k)
