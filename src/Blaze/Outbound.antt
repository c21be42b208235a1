-- ===== src/Blaze/Outbound.antt =====
-- pallets/blaze: the Socket messages that wait for a transaction.
pub mod Sequences
use bifrost_node.Prelude.{
  ℕ, Bool, true, false, not, Option, none, some, List, [], ◌∷◌, ◌++◌, if◌then◌else◌, retain,
  Fallible, done, failed, require,
}
use bifrost_node.Blaze.Types.{Config, Storage, Error, Event, Dispatch, deposit_event, contains}
use bifrost_node.Blaze.Activation.{ensure_activation}

abbrev pub is_empty : List ℕ → Bool
is_empty [] = true
is_empty (x ∷ xs) = false

-- The sequences of the messages that can be read.
unfoldable pub sequences : Config → List ℕ → List ℕ
sequences c [] = []
sequences c (m ∷ ms) =
    let rest = sequences c ms in elim (c.sequence m) [ none ↦ rest | some n ↦ n ∷ rest ]

-- The loop's variables: the pool and the sequences in it, with the storage for the events.
pub record Pool : Type 0 where
  pub messages : List ℕ
  pub sequences : List ℕ
  pub state : Storage

unfoldable pub submit_message : Config → ℕ → ℕ → Pool → Pool
submit_message c authority_id message p =
    if contains message p.messages then p else elim (c.sequence message) [
      | none ↦ p
      | some n ↦
          if contains n p.sequences
          then p
          else if not (c.verify_socket_message message)
          then p
          else record {
            messages = p.messages ++ message ∷ [];
            sequences = p.sequences ++ n ∷ [];
            state = deposit_event (Event.socket_message_submitted authority_id message) p.state;
          }
    ]

unfoldable pub submit_messages : Config → ℕ → List ℕ → Pool → Pool
submit_messages c authority_id [] p = p
submit_messages c authority_id (m ∷ ms) p =
    submit_messages c authority_id ms (submit_message c authority_id m p)

unfoldable pub submit_outbound_requests : Config → ℕ → List ℕ → Storage → Dispatch
submit_outbound_requests c authority_id messages s =
    require (not (is_empty messages)) Error.empty_submission (
      let p = submit_messages c authority_id messages (record {
        messages = s.outbound_pool;
        sequences = sequences c s.outbound_pool;
        state = s;
      }) in
      done (record p.state { outbound_pool = p.messages }))

unfoldable pub clear_outbound_pool : List ℕ → Storage → Storage
clear_outbound_pool targets s = record s {
  outbound_pool = retain (λ m. not (contains m targets)) s.outbound_pool;
}

unfoldable pub remove_outbound_messages : List ℕ → Storage → Dispatch
remove_outbound_messages messages s = ensure_activation false s (
    require (not (is_empty messages)) Error.empty_submission
      (done (clear_outbound_pool messages s)))
