-- ===== src/Exchange/Sessions.antt =====
-- `on_client_disconnect` of apps/simulated_exchange/exchange_core.hpp, and the requests of the
-- engine's loop one after the other, with the buffer drained after each.
use low_latency_tick_to_trad.Prelude.{
  ℕ, ◌-◌, false, Option, none, some, List, [], ◌∷◌, ◌==◌, if◌then◌else◌,
}
use low_latency_tick_to_trad.Exchange.{
  Core, Config, Engine, extract_session_id, ◌>>=◌, IdEntry, erase_ids,
}
use low_latency_tick_to_trad.Book

module _ (x : Config) where
  -- The first walk: the session's orders are cancelled in the books.
  unfoldable pub cancel_all : ℕ → List (ℕ × IdEntry) → (ℕ → Engine x) → ℕ → Engine x
  cancel_all session_id [] books = books
  cancel_all session_id ((key, entry) ∷ es) books =
      let i = entry.symbol_id - 1 in
      let book = (Book.cancel_order x.orders x.levels (books i) entry.exchange_id).0 in
      if extract_session_id key == session_id
      then cancel_all session_id es (λ j. if j == i then book else books j)
      else cancel_all session_id es books

  -- The keys of a session.
  unfoldable pub keys_of : {V : Type 0} → ℕ → List (ℕ × V) → List ℕ
  keys_of session_id [] = []
  keys_of session_id ((key, _) ∷ es) =
      let rest = keys_of session_id es in
      if extract_session_id key == session_id then key ∷ rest else rest

  -- `none` is a failed assertion: the forward entry is not there, or an erasure answers false.
  unfoldable pub erase_pair : ℕ → Core x → Option IdEntry → Option (Core x)
  erase_pair key c none = none
  erase_pair key c (some entry) = erase_ids x key entry.exchange_id c

  unfoldable pub erase_pairs : List ℕ → Core x → Option (Core x)
  unfolding erase_pair
  erase_pairs [] c = some c
  erase_pairs (key ∷ keys) c = do
    c' ← erase_pair key c (x.ids.find c.id_map key)
    erase_pairs keys c'

  unfoldable pub erase_seen : List ℕ → x.seen.Map → x.seen.Map
  erase_seen [] m = m
  erase_seen (key ∷ keys) m = erase_seen keys (x.seen.erase m key)

  -- The session is closed and its orders are cancelled in the books.
  abbrev pub close_session : ℕ → Core x → Core x
  close_session session_id c = record c {
    active_sessions = λ j. if j == session_id then false else c.active_sessions j;
    books = cancel_all session_id (x.ids_for_each c.id_map) c.books;
  }

  abbrev pub forget_seen : ℕ → Core x → Core x
  forget_seen session_id c = record c {
    seen_orders = erase_seen (keys_of session_id (x.seen_for_each c.seen_orders)) c.seen_orders;
  }

  unfoldable pub on_client_disconnect : ℕ → Core x → Option (Core x)
  unfolding cancel_all keys_of erase_pairs erase_seen
  on_client_disconnect session_id c =
      let erased =
        erase_pairs (keys_of session_id (x.ids_for_each c.id_map)) (close_session session_id c) in
      if session_id == 0 then some c else (do c' ← erased; some (forget_seen session_id c'))
