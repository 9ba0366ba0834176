-- ===== src/Tests/Subscribe.antt =====
-- A client that follows transactions, of which two are written before the node stops.
use monomer.Prelude.{
  ℕ, ◌≡◌, refl, false, none, some, [], ◌∷◌, ◌++◌, String, List, ok, err, failure, wrapped,
}
use monomer.Prelude.Stateful.{continue}
use monomer.Comet.Subscribe.{
  Bus, over, stopped, message, start, event_response, error_response, write_err, canceled, written,
  events, error_responses, reason_text, listen, turn, subscribe, unsubscribe_all, listen-ends,
}

-- A bus that knows who listens, and one query.
abbrev bus : Bus
bus = record {
  State = List String;
  Query = Unit;
  Message = ℕ;
  new_query = λ q. err (failure "unexpected token");
  subscribe = λ who q s. (ok tt, who ∷ s);
  unsubscribe = λ who q s. (ok tt, s);
  unsubscribe_all = λ who s. (err (failure "not found"), s);
}

subscribe_bad_query :
    (subscribe bus "10.0.0.1" "tx=" []
      ≡ (err (wrapped "parse query" (failure "unexpected token")), []))
    × (unsubscribe_all bus "10.0.0.1" [] ≡ (err (failure "unsubscribe all"), []))
unfolding subscribe unsubscribe_all continue
subscribe_bad_query = (refl, refl)

listen_two :
    listen {M = ℕ} "tx" (message 7 none ∷ message 8 none ∷ over stopped ∷ message 9 none ∷ []) start
    ≡ record {
      running = false;
      sent = event_response "tx" 7 ∷ event_response "tx" 8 ∷ error_response "Monomer exited" ∷ [];
      told = canceled (some "Monomer exited") ∷ [];
    }
unfolding listen turn
listen_two = refl

listen-ends_example :
    (listen {M = ℕ} "tx" (written "tx" (7 ∷ 8 ∷ []) ++ over stopped ∷ message 9 none ∷ []) start
      ≡ record {
        running = false;
        sent = events "tx" (7 ∷ 8 ∷ []) ++ error_responses (reason_text stopped);
        told = canceled (reason_text stopped) ∷ [];
      })
    × (listen {M = ℕ} "tx"
          (written "tx" (7 ∷ 8 ∷ []) ++ message 6 (some "closed") ∷ message 9 none ∷ [])
          start
        ≡ record {
          running = false;
          sent = events "tx" (7 ∷ 8 ∷ []) ++ error_response "closed" ∷ [];
          told = write_err "closed" ∷ [];
        })
listen-ends_example = listen-ends "tx" (7 ∷ 8 ∷ []) (message 9 none ∷ []) stopped 6 "closed"
