-- ===== src/Terminal/Messages.antt =====
-- What a message does to a session of server/internal/terminal, and what its end does.
use remote_app_start_my_linu.Prelude.{
  ◌<◌, Bytes, Bool, true, false, List, [], ◌∷◌, ◌++◌, none, some, ◌≡◌, refl, sym, ap, ◌∙◌, arith,
  append_assoc, append-nil, ℕ, zero, suc, drop, Option, Bool-cases, inl, inr,
}
use remote_app_start_my_linu.Terminal.Session.{Session, take, resize, write, close}
use remote_app_start_my_linu.Terminal.Relay.{ResizeMsg, Message, text, binary, on_text, on_message}

-- The bytes of the binary messages, in order.
abbrev pub typed_by : List Message → Bytes
typed_by [] = []
typed_by (text m ∷ ms) = typed_by ms
typed_by (binary bytes ∷ ms) = bytes ++ typed_by ms

-- A session that nobody has closed yet, and one that `Close` has ended.
abbrev IsOpen : Session → Type 0
IsOpen s = (s.is_done ≡ false) × (s.hangups ≡ 0) × (s.closes ≡ 0) × (s.waits ≡ 0)

abbrev IsClosed : Session → Type 0
IsClosed s = (s.is_done ≡ true) × (s.hangups ≡ 1) × (s.closes ≡ 1) × (s.waits ≡ 1)

abbrev pub Closing : Bool → Session → Type 0
Closing false s = IsOpen s
Closing true s = IsClosed s

pub typed_by-append :
    (ms : List Message) (m : Message) → typed_by (ms ++ m ∷ []) ≡ typed_by ms ++ typed_by (m ∷ [])
typed_by-append [] m = refl
typed_by-append (text x ∷ ms) m = typed_by-append ms m
typed_by-append (binary bytes ∷ ms) m =
    ap (λ z. bytes ++ z) (typed_by-append ms m) ∙ sym (append_assoc bytes (typed_by ms) _)

take-drop : (n : ℕ) (s : Bytes) → s ≡ take n s ++ drop n s
unfolding take
take-drop zero s = refl
take-drop (suc n) [] = refl
take-drop (suc n) (c ∷ cs) = ap (λ z. c ∷ z) (take-drop n cs)

on_text-typed :
    (works : Bool) (s : Session) (o : Option ResizeMsg) → (on_text works s o).typed ≡ s.typed
unfolding on_text resize
on_text-typed works s none = refl
on_text-typed works s (some m) = ground arith

-- What one message does: a binary one is typed, as a whole or, where the loop ends, in part; the size
-- keeps clear of 0, and nothing is closed.
pub on_message-typed :
    (works : Bool) (failed : Option ℕ) (s : Session) (m : Message)
    → (on_message works failed s m).1 ≡ true
    → (on_message works failed s m).0.typed ≡ s.typed ++ typed_by (m ∷ [])
unfolding on_message write
on_message-typed works failed s (text o) h = on_text-typed works s o ∙ sym (append-nil s.typed)
on_message-typed works none s (binary bytes) h = ground (arith, append-nil bytes)
on_message-typed works (some n) s (binary bytes) h = absurd (ground arith)

pub on_message-part :
    (works : Bool) (failed : Option ℕ) (s : Session) (m : Message)
    → (on_message works failed s m).1 ≡ false
    → (part : Bytes) × (rest : Bytes) × ((on_message works failed s m).0.typed ≡ s.typed ++ part)
      × (typed_by (m ∷ []) ≡ part ++ rest)
unfolding on_message write
on_message-part works failed s (text o) h = absurd (ground arith)
on_message-part works none s (binary bytes) h =
    ([], bytes ++ [], ground (arith, append-nil s.typed), refl)
on_message-part works (some n) s (binary bytes) h = elim (Bool-cases s.is_done) [
  | inl e ↦ ([], bytes ++ [], rw e (sym (append-nil s.typed)), refl)
  | inr e ↦ (take n bytes, drop n bytes, rw e refl, append-nil bytes ∙ take-drop n bytes)
]

pub on_message-sized :
    (works : Bool) (failed : Option ℕ) (s : Session) (m : Message)
    → (0 < s.size.cols) × (0 < s.size.rows)
    → (0 < (on_message works failed s m).0.size.cols)
      × (0 < (on_message works failed s m).0.size.rows)
unfolding on_message on_text resize write
on_message-sized works failed s (text none) h = h
on_message-sized works failed s (text (some m)) h = ground arith
on_message-sized works none s (binary bytes) h = ground arith
on_message-sized works (some n) s (binary bytes) h = ground arith

pub on_message-Closing :
    (works : Bool) (failed : Option ℕ) (s : Session) (m : Message) (b : Bool)
    → Closing b s
    → Closing b (on_message works failed s m).0
unfolding on_message on_text resize write
on_message-Closing works failed s (text none) b h = h
on_message-Closing works failed s (text (some m)) true h = ground arith
on_message-Closing works failed s (text (some m)) false h = ground arith
on_message-Closing works none s (binary bytes) true h = ground arith
on_message-Closing works none s (binary bytes) false h = ground arith
on_message-Closing works (some n) s (binary bytes) true h = ground arith
on_message-Closing works (some n) s (binary bytes) false h = ground arith

pub close-Closing : (s : Session) → Closing false s → Closing true (close s)
unfolding close
close-Closing s h = ground arith

pub close-typed : (s : Session) → (close s).typed ≡ s.typed
unfolding close
close-typed s = ground arith

pub close-size : (s : Session) → (close s).size ≡ s.size
unfolding close
close-size s = ground arith
