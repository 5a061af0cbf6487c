-- ===== src/ResponseManager/Subscriber.antt =====
-- responsemanager/subscriber.go: what the manager's subscriber does about the events of the messages
-- that carry a request's response.
use go_graphsync.Base.{ℕ, List, [], ◌∷◌, ◌++◌, map, none, some, if◌then◌else◌, Map, get?}
use go_graphsync.Message.Builder.{slice_at}
use go_graphsync.MessageQueue.{BlockData, EventName, queued, sent, error, Metadata}
use go_graphsync.ResponseCode.{is_terminal}
use go_graphsync.ResponseManager.{
  Manager, Effect, Decoders, Call, abort_call, terminate_call, network_error, handle,
}

pub data SubscriberCall : Type 0 where
  close_with_network_error : ℕ → SubscriberCall
  terminate_request : ℕ → SubscriberCall
  notify_block_sent : ℕ → ℕ → BlockData → SubscriberCall
  notify_completed : ℕ → ℕ → ℕ → SubscriberCall
  notify_network_error : ℕ → ℕ → SubscriberCall

-- Go's reading of a missing code is 0.
abbrev pub code_at : ℕ → Map ℕ → ℕ
code_at id m = elim (get? id m) [ none ↦ 0 | some c ↦ c ]

unfoldable pub on_next : ℕ → ℕ → EventName → Metadata → List SubscriberCall
on_next p id queued m = []
on_next p id error m =
    close_with_network_error id
      ∷ (if is_terminal (code_at id m.response_codes) then terminate_request id ∷ [] else [])
    ++ notify_network_error p id ∷ []
on_next p id sent m =
    map (notify_block_sent p id) (slice_at id m.block_data)
    ++ (if is_terminal (code_at id m.response_codes)
        then terminate_request id ∷ notify_completed p id (code_at id m.response_codes) ∷ []
        else [])

-- The messages that the calls send to the manager, which takes them in order.
abbrev pub call_of : SubscriberCall → List Call
call_of (close_with_network_error id) = abort_call id network_error ∷ []
call_of (terminate_request id) = terminate_call id ∷ []
call_of _ = []

unfoldable pub handle_all : Decoders → List Call → Manager → Manager × List Effect
unfolding handle
handle_all d [] m = (m, [])
handle_all d (c ∷ calls) m =
    let o = handle d c m in let rest = handle_all d calls o.0 in (rest.0, o.1 ++ rest.1)

abbrev pub calls_of : List SubscriberCall → List Call
calls_of [] = []
calls_of (c ∷ cs) = call_of c ++ calls_of cs

-- An event of a message, as far as the manager sees it.
unfoldable pub see_event : Decoders → ℕ → ℕ → EventName → Metadata → Manager → Manager × List Effect
unfolding on_next handle_all
see_event d p id name m = handle_all d (calls_of (on_next p id name m))
