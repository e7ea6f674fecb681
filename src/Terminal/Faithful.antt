-- ===== src/Terminal/Faithful.antt =====
-- What the relay guarantees in every state that it can reach.
use remote_app_start_my_linu.Prelude.{
  Bool, ℕ, ◌<◌, Bytes, codes, true, false, ◌||◌, List, [], ◌∷◌, ◌++◌, Option, some, ◌≡◌, refl, sym,
  ap, subst, ◌∙◌, arith, append_assoc, append-nil, ◌⊎◌, inl, inr, Option-cases,
}
use remote_app_start_my_linu.Terminal.Session.{Session, login_shell, new_session, resize}
use remote_app_start_my_linu.Terminal.Messages.{
  typed_by, Closing, typed_by-append, on_message-typed, on_message-part, on_message-sized,
  on_message-Closing, close-Closing, close-typed, close-size,
}
use remote_app_start_my_linu.Terminal.Relay.{
  Message, Relay, Step, shell_writes, client_sends, output_reads, output_writes, output_ends,
  input_ends, input_reads, input_handles, input_fails, request_ends, handler_returns, Reach,
  started, later,
}

pub record IsFaithful (r : Relay) : Type 0 where
  -- What was sent, what is held and what is to be read are together what the shell has written.
  pub delivered : r.produced ≡ r.sent ++ (r.held ++ r.output)
  pub heard : r.received ≡ r.handled ++ (r.pending ++ r.inbox)
  pub single : (r.pending ≡ []) ⊎ ((m : Message) × (r.pending ≡ m ∷ []))
  -- The messages handled, and where the write of the pending one has failed, a first part of it.
  pub typed :
      (part : Bytes) × (rest : Bytes) × (r.session.typed ≡ typed_by r.handled ++ part)
      × (typed_by r.pending ≡ part ++ rest)
      × ((part ≡ []) ⊎ (r.input_done ≡ true))
  pub sized : (0 < r.session.size.cols) × (0 < r.session.size.rows)
  pub ended : (r.output_done || r.input_done) ≡ true → r.cancelled ≡ true
  pub closing : Closing r.returned r.session

-- A session as `NewSession` leaves it where it could be sized.
pub record IsFresh (s : Session) : Type 0 where
  pub untyped : s.typed ≡ []
  pub sized : (0 < s.size.cols) × (0 < s.size.rows)
  pub is_open : Closing false s

pub new_session-IsFresh :
    (shell : Bytes) (start : List Bytes → Option ℕ) (s : Session)
    → new_session shell start true ≡ some s
    → IsFresh s
unfolding new_session resize
new_session-IsFresh shell start s h =
    elim (Option-cases (start (login_shell shell ∷ codes "-l" ∷ []))) [
      | inl e ↦ absurd (ground arith)
      | inr (pid, e) ↦
          let made : Session = record {
            pid = pid;
            size = record { rows = 24; cols = 80 };
            typed = [];
            is_done = false;
            hangups = 0;
            closes = 0;
            waits = 0;
          } in
          let same : made ≡ s = ground arith in
          subst IsFresh same (record {
            untyped = refl;
            sized = (omega arith, omega arith);
            is_open = (refl, refl, refl, refl);
          })
    ]

move_held :
    (sent held output : List Bytes) (chunk : Bytes)
    → held ≡ chunk ∷ []
    → sent ++ (held ++ output) ≡ (sent ++ chunk ∷ []) ++ output
move_held sent held output chunk e = rw e (sym (append_assoc sent (chunk ∷ []) output))

-- The parts of a state that the steps of one side change, with what they keep.
output-IsFaithful :
    {r : Relay} (produced output held sent : List Bytes)
    → produced ≡ sent ++ (held ++ output)
    → IsFaithful r
    → IsFaithful (record r { produced = produced; output = output; held = held; sent = sent })
output-IsFaithful produced output held sent delivered h = record {
  delivered = delivered;
  heard = h.heard;
  single = h.single;
  typed = h.typed;
  sized = h.sized;
  ended = h.ended;
  closing = h.closing;
}

input-IsFaithful :
    {r : Relay} (received inbox : List Message)
    → received ≡ r.handled ++ (r.pending ++ inbox)
    → IsFaithful r
    → IsFaithful (record r { received = received; inbox = inbox })
input-IsFaithful received inbox heard h = record {
  delivered = h.delivered;
  heard = heard;
  single = h.single;
  typed = h.typed;
  sized = h.sized;
  ended = h.ended;
  closing = h.closing;
}

cancel-IsFaithful :
    {r : Relay} (output_done input_done : Bool)
    → (r.input_done ≡ true → input_done ≡ true)
    → IsFaithful r
    → IsFaithful (record r { output_done = output_done; input_done = input_done; cancelled = true })
cancel-IsFaithful output_done input_done keeps h = record {
  delivered = h.delivered;
  heard = h.heard;
  single = h.single;
  typed =
      let (part, rest, t, p, o) = h.typed in
      (part, rest, t, p, elim o [ inl e ↦ inl e | inr e ↦ inr (keeps e) ]);
  sized = h.sized;
  ended = λ e. refl;
  closing = h.closing;
}

-- While the goroutine of the input runs, nothing but the messages handled is typed.
running_typed :
    {r : Relay} → IsFaithful r → r.input_done ≡ false → r.session.typed ≡ typed_by r.handled
running_typed {r} h running =
    let (part, rest, t, p, o) = h.typed in
    elim o [
      | inl e ↦ t ∙ (ap (λ z. typed_by r.handled ++ z) e ∙ append-nil _)
      | inr e ↦ absurd (cc (e, running))
    ]

Step-IsFaithful : {r t : Relay} → Step r t → IsFaithful r → IsFaithful t
Step-IsFaithful (shell_writes {r} chunk) h =
    output-IsFaithful (r.produced ++ chunk ∷ []) (r.output ++ chunk ∷ []) r.held r.sent
      (ap (λ z. z ++ chunk ∷ []) h.delivered
        ∙ (append_assoc r.sent (r.held ++ r.output) (chunk ∷ [])
            ∙ ap (λ z. r.sent ++ z) (append_assoc r.held r.output (chunk ∷ []))))
      h
Step-IsFaithful (client_sends {r} m) h =
    input-IsFaithful (r.received ++ m ∷ []) (r.inbox ++ m ∷ [])
      (ap (λ z. z ++ m ∷ []) h.heard
        ∙ (append_assoc r.handled (r.pending ++ r.inbox) (m ∷ [])
            ∙ ap (λ z. r.handled ++ z) (append_assoc r.pending r.inbox (m ∷ []))))
      h
Step-IsFaithful (output_reads {r} chunk output running is_open empty next) h =
    output-IsFaithful r.produced output (chunk ∷ []) r.sent (h.delivered ∙ rw (empty, next) refl) h
Step-IsFaithful (output_writes {r} chunk running live full) h =
    output-IsFaithful r.produced r.output [] (r.sent ++ chunk ∷ [])
      (h.delivered ∙ move_held r.sent r.held r.output chunk full) h
Step-IsFaithful (output_ends {r}) h = cancel-IsFaithful true r.input_done (λ e. e) h
Step-IsFaithful (input_ends {r} empty) h = cancel-IsFaithful r.output_done true (λ e. refl) h
Step-IsFaithful (request_ends {r}) h = cancel-IsFaithful r.output_done r.input_done (λ e. e) h
Step-IsFaithful (input_reads {r} m inbox running live empty next) h = record {
  delivered = h.delivered;
  heard = h.heard ∙ rw (empty, next) refl;
  single = inr (m, refl);
  typed = ([], typed_by (m ∷ []), running_typed h running ∙ sym (append-nil _), refl, inl refl);
  sized = h.sized;
  ended = h.ended;
  closing = h.closing;
}
Step-IsFaithful (input_handles {r} works failed m running taken good) h = record {
  delivered = h.delivered;
  heard = h.heard ∙ rw taken (sym (append_assoc r.handled (m ∷ []) r.inbox));
  single = inl refl;
  typed = (
    [],
    [],
    on_message-typed works failed r.session m good
        ∙ (ap (λ z. z ++ typed_by (m ∷ [])) (running_typed h running)
            ∙ (sym (typed_by-append r.handled m) ∙ sym (append-nil _))),
    refl,
    inl refl,
  );
  sized = on_message-sized works failed r.session m h.sized;
  ended = h.ended;
  closing = on_message-Closing works failed r.session m r.returned h.closing;
}
Step-IsFaithful (input_fails {r} works failed m running taken bad) h =
    let (part, rest, t, p) = on_message-part works failed r.session m bad in
    record {
      delivered = h.delivered;
      heard = h.heard;
      single = h.single;
      typed = (
        part,
        rest,
        t ∙ ap (λ z. z ++ part) (running_typed h running),
        ap typed_by taken ∙ p,
        inr refl,
      );
      sized = on_message-sized works failed r.session m h.sized;
      ended = λ e. refl;
      closing = on_message-Closing works failed r.session m r.returned h.closing;
    }
Step-IsFaithful (handler_returns {r} waiting over) h = record {
  delivered = h.delivered;
  heard = h.heard;
  single = h.single;
  typed = let (part, rest, t, p, o) = h.typed in (part, rest, close-typed r.session ∙ t, p, o);
  sized = rw (close-size r.session) h.sized;
  ended = h.ended;
  closing = close-Closing r.session (subst (λ b. Closing b r.session) waiting h.closing);
}

-- From a session as `NewSession` leaves it where its size could be set, untyped and open, whatever the
-- shell and the client do, and however the steps of the two goroutines and of the handler
-- follow each other: what was sent to the client, what is read and not yet sent and what is still to
-- be read are together what the shell has written, in order; the messages handled, the one, at most,
-- that is read and not handled, and those still to be read are together what the client has sent, in
-- order; the terminal was typed exactly the bytes of the binary messages that were handled, and, if a
-- write has failed and so ended the goroutine, a first part, perhaps empty, of the message read last; its
-- size has no 0; a goroutine that has ended has cancelled the context; and the terminal was closed,
-- hung up and waited for once if the handler has returned, and not at all before.
pub Reach-IsFaithful : (s : Session) → IsFresh s → {r : Relay} → Reach s r → IsFaithful r
Reach-IsFaithful s fresh started = record {
  delivered = refl;
  heard = refl;
  single = inl refl;
  typed = ([], [], fresh.untyped, refl, inl refl);
  sized = fresh.sized;
  ended = λ e. absurd (cc e);
  closing = fresh.is_open;
}
Reach-IsFaithful s fresh (later past step) = Step-IsFaithful step (Reach-IsFaithful s fresh past)

-- Once one of the goroutines has ended and the handler waits, it can return, and behind that the
-- terminal is closed.
Reach-returns :
    (s : Session)
    → IsFresh s
    → {r : Relay} → Reach s r
    → (r.output_done || r.input_done) ≡ true
    → r.returned ≡ false
    → (t : Relay) × Step r t × (t.returned ≡ true) × (t.session.is_done ≡ true)
Reach-returns s fresh {r} past over waiting =
    let faithful = Reach-IsFaithful s fresh past in
    let step = handler_returns {r = r} waiting (faithful.ended over) in
    (_, step, refl, (Step-IsFaithful step faithful).closing.0)
