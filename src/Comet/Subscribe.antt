-- ===== src/Comet/Subscribe.antt =====
-- comet/comet.go: `SubscriberAPI`, and the goroutine that pushes events to a client's websocket.
use monomer.Prelude.{
  ◌≡◌, refl, ap, sym, ◌∙◌, Bool, true, false, Option, none, some, String, List, [], ◌∷◌, ◌++◌, map,
  Result, wrapping, if◌then◌else◌,
}
use mathlib.Core.List.{append_assoc, append-nil}
use monomer.Prelude.Stateful.{Step, ◌>>=◌, ◌>>◌, pure, reading}
use monomer.Builder.Build.{failing_at}

-- CometBFT's event bus and its queries; what is put on the bus is a message.
pub record Bus : Type 1 where
  pub State : Type 0
  pub Query : Type 0
  pub Message : Type 0
  pub new_query : String → Result Query
  pub subscribe : (subscriber : String) → Query → Step State (Unit {0})
  pub unsubscribe : (subscriber : String) → Query → Step State (Unit {0})
  pub unsubscribe_all : (subscriber : String) → Step State (Unit {0})

-- Why a subscription is over: the client unsubscribed, the bus stopped, or an error.
pub data Reason : Type 0 where
  unsubscribed stopped : Reason
  other : String → Reason

-- What the goroutine writes to the websocket: an event, or an error, where it does not ask whether that
-- was written. The texts of the errors are kept to their reasons.
pub data Response (M : Type 0) : Type 0 where
  event_response : (query : String) → M → Response M
  error_response : (reason : String) → Response M

-- What it tells the listener.
pub data Notice : Type 0 where
  write_err : (reason : String) → Notice
  canceled : (reason : Option String) → Notice

-- One turn of the `select`: a message, with the error of writing it if there is one, or the end of the
-- subscription.
pub data Turn (M : Type 0) : Type 0 where
  message : M → (write_error : Option String) → Turn M
  over : Reason → Turn M

pub record Session (M : Type 0) : Type 0 where
  pub running : Bool
  pub sent : List (Response M)
  pub told : List Notice

-- Before the first turn.
abbrev pub start : {M : Type 0} → Session M
start = record { running = true; sent = []; told = [] }

module _ (B : Bus) where
  -- `Subscribe`, up to the goroutine that it starts; `Unsubscribe` and `UnsubscribeAll`.
  unfoldable pub subscribe : (addr query : String) → Step B.State (Session B.Message)
  subscribe addr query = do
    q ← reading (λ (s : B.State). wrapping "parse query" (B.new_query query))
    (λ s. let (r, s') = B.subscribe addr q s in (wrapping "subscribe to event bus" r, s'))
    pure start

  unfoldable pub unsubscribe : (addr query : String) → Step B.State (Unit {0})
  unsubscribe addr query = do
    q ← reading (λ (s : B.State). wrapping "parse query" (B.new_query query))
    (λ s. let (r, s') = B.unsubscribe addr q s in (wrapping "unsubscribe from event bus" r, s'))

  unfoldable pub unsubscribe_all : (addr : String) → Step B.State (Unit {0})
  unsubscribe_all addr = failing_at "unsubscribe all" (B.unsubscribe_all addr)

-- `err.Error()`, where there is an error, and what is written of it.
abbrev pub reason_text : Reason → Option String
reason_text unsubscribed = none
reason_text stopped = some "Monomer exited"
reason_text (other t) = some t

abbrev pub error_responses : {M : Type 0} → Option String → List (Response M)
error_responses none = []
error_responses (some t) = error_response t ∷ []

module _ {M : Type 0} (query : String) where
  -- The body of the loop.
  unfoldable pub turn : Turn M → Session M → Session M
  turn (message m none) s = record s { sent = s.sent ++ event_response query m ∷ [] }
  turn (message m (some e)) s = record {
    running = false;
    sent = s.sent ++ error_response e ∷ [];
    told = s.told ++ write_err e ∷ [];
  }
  turn (over r) s = record {
    running = false;
    sent = s.sent ++ error_responses (reason_text r);
    told = s.told ++ canceled (reason_text r) ∷ [];
  }

  -- The goroutine: it returns after a turn that ends it.
  unfoldable pub listen : List (Turn M) → Session M → Session M
  listen [] s = s
  listen (t ∷ ts) s = let rest = listen ts (turn t s) in if s.running then rest else s

  -- Messages that are all written, and the events of them.
  abbrev pub written : List M → List (Turn M)
  written = map (λ m. message m none)

  abbrev pub events : List M → List (Response M)
  events = map (event_response query)

  listen-stopped : (ts : List (Turn M)) (s : Session M) → s.running ≡ false → listen ts s ≡ s
  unfolding listen
  listen-stopped [] s e = refl
  listen-stopped (t ∷ ts) s e = rw e refl

  listen-written :
      (ms : List M) (ts : List (Turn M)) (s : Session M)
      → s.running ≡ true
      → listen (written ms ++ ts) s ≡ listen ts (record s { sent = s.sent ++ events ms })
  unfolding listen turn
  listen-written [] ts s e = ap (λ rs. listen ts (record s { sent = rs })) (sym (append-nil s.sent))
  listen-written (m ∷ ms) ts s e =
      let m' = message m none in
      ap (λ b. if b then listen (written ms ++ ts) (turn m' s) else s) e
      ∙ listen-written ms ts (turn m' s) e
      ∙ ap (λ rs. listen ts (record s { sent = rs }))
          (append_assoc s.sent (event_response query m ∷ []) (events ms))

  -- However many messages are written first, each is sent once and in order. A subscription that is over
  -- adds its error, if it has one, and one notice that says so; a message that cannot be written adds an
  -- error and one notice of that. What comes afterwards is not looked at.
  pub listen-ends :
      (ms : List M) (ts : List (Turn M)) (r : Reason) (m : M) (e : String)
      → (listen (written ms ++ over r ∷ ts) start ≡ record {
        running = false;
        sent = events ms ++ error_responses (reason_text r);
        told = canceled (reason_text r) ∷ [];
      })
        × (listen (written ms ++ message m (some e) ∷ ts) start ≡ record {
          running = false;
          sent = events ms ++ error_response e ∷ [];
          told = write_err e ∷ [];
        })
  unfolding listen turn
  listen-ends ms ts r m e = (
    listen-written ms (over r ∷ ts) start refl
        ∙ listen-stopped ts (turn (over r) (record start { sent = events ms })) refl,
    listen-written ms (message m (some e) ∷ ts) start refl
        ∙ listen-stopped ts (turn (message m (some e)) (record start { sent = events ms })) refl,
  )
