-- ===== src/ResponseManager/NetworkErrors.antt =====
-- What a message that could not be sent, and an update that the application sends, do to a response
-- that completes: responsemanager/server.go and subscriber.go with messagequeue/messagequeue.go and
-- responsemanager/responseassembler/responseBuilder.go.
use go_graphsync.Base.{
  ℕ, ◌≡◌, refl, sym, ◌∙◌, ap, subst, true, false, List, [], ◌∷◌, ◌++◌, map, none, some, arith, All,
  Option-cases, inl, inr, get?, some_inj, get?-insert_self, Map, has, contains,
}
use go_graphsync.Message.{Extension, Response, Metadatum, new_response}
use go_graphsync.Message.Scrub.{IsSized, get?-build}
use go_graphsync.Message.Builder.{
  build, add_response_code, ensure_response, slice_at, partial_response,
}
use go_graphsync.MessageQueue.{
  MessageQueue, QueueBuilder, InternalMetadata, Metadata, error, publish_error,
  scrub_response_streams, scrub_queue,
}
use go_graphsync.MessageQueue.Scrub.{Without, scrub_builders-kept, scrubbed-Without}
use go_graphsync.Assembler.{
  Operation, status, extension, build_operation, build_operations, ResponseBuilder, act,
  send_updates,
}
use go_graphsync.ResponseCode.{is_terminal}
use go_graphsync.ResponseManager.Subscriber.{on_next, code_at, handle_all, see_event, calls_of}
use go_graphsync.ResponseManager.Completing.{state_of, handle-completing}
use go_graphsync.ResponseManager.{
  Manager, Decoders, completing_send, handle, abort_call, network_error,
}

publish_error-Without :
    (im : InternalMetadata) (q : MessageQueue)
    → All (λ b. IsSized b.inner) q.builders
    → All (Without (map (λ e. e.0) im.response_streams)) (publish_error im q).0.builders
unfolding publish_error scrub_response_streams scrub_queue
publish_error-Without im q v =
    let ids = map {A = ℕ × ℕ} (λ e. e.0) im.response_streams in
    subst (All (Without ids)) (sym (scrub_builders-kept ids q.builders [] 0))
      (scrubbed-Without ids q.builders v)

All-Without :
    (id : ℕ) (ids : List ℕ) (bs : List QueueBuilder)
    → contains id ids ≡ true
    → All (Without ids) bs
    → All (λ b. get? id b.inner.outgoing_responses ≡ none) bs
All-Without id ids [] h v = tt
All-Without id ids (b ∷ bs) h v = (v.0 id h, All-Without id ids bs h v.1)

see_error :
    (d : Decoders) (p id : ℕ) (md : Metadata) (m : Manager)
    → is_terminal (code_at id md.response_codes) ≡ false
    → (see_event d p id error md m).0 ≡ (handle d (abort_call id network_error) m).0
unfolding see_event on_next handle_all
see_error d p id md m h = rw (h, calls_of) refl

-- When a message fails that carries a response, but not its end, and the response completes, then the
-- response is taken out of all messages that wait, and stays in progress.
pub error_event-leaves :
    (d : Decoders) (p id : ℕ) (im : InternalMetadata) (q : MessageQueue) (m : Manager)
    → All (λ b. IsSized b.inner) q.builders
    → contains id (map (λ e. e.0) im.response_streams) ≡ true
    → is_terminal (code_at id im.public.response_codes) ≡ false
    → state_of id m ≡ some completing_send
    → All (λ b. get? id b.inner.outgoing_responses ≡ none) (publish_error im q).0.builders
      × (state_of id (see_event d p id error im.public m).0 ≡ some completing_send)
error_event-leaves d p id im q m v c t s = (
  All-Without id (map {A = ℕ × ℕ} (λ e. e.0) im.response_streams) (publish_error im q).0.builders c
      (publish_error-Without im q v),
  ap (state_of id) (see_error d p id im.public m t)
      ∙ (handle-completing d (abort_call id network_error) m id s refl).1,
)

build_operations-append :
    (ops more : List Operation) (b : QueueBuilder)
    → build_operations (ops ++ more) b ≡ build_operations more (build_operations ops b)
unfolding build_operations
build_operations-append [] more b = refl
build_operations-append (op ∷ ops) more b = build_operations-append ops more (build_operation op b)

ensured :
    (id : ℕ) (m : Map (List Metadatum))
    → (md : List Metadatum) × (get? id (ensure_response id m) ≡ some md)
unfolding ensure_response has
ensured id m = elim (Option-cases (get? id m)) [
  | inl e ↦ ([], ground (arith, get?-insert_self id [] m))
  | inr (md, e) ↦ (md, ground arith)
]

status_last :
    (id code : ℕ) (b : QueueBuilder)
    → (r : Response) × (get? id (build (build_operations (status id code ∷ []) b).inner).responses
        ≡ some r)
      × (r.status ≡ code)
unfolding build_operations build_operation add_response_code
status_last id code b =
    let c = add_response_code id code b.inner in
    let (md, e) = ensured id b.inner.outgoing_responses in
    (
      new_response id code md (slice_at id c.extensions),
      get?-build id c ∙ rw (e, get?-insert_self id code b.inner.completed_responses) refl,
      unfold new_response in refl,
    )

partial_response-goes_on : is_terminal partial_response ≡ false
unfolding is_terminal
partial_response-goes_on = refl

-- After the transaction of an update that the application sends, the message says PartialResponse about
-- the request, which is not a terminal status, whatever it said before.
pub send_updates-hides :
    (rb done : ResponseBuilder) (es : List Extension) (b : QueueBuilder)
    → act (send_updates es) rb ≡ some done
    → (r : Response) × (get? rb.request_id
          (build (build_operations done.operations b).inner).responses
        ≡ some r)
      × (r.status ≡ partial_response)
      × (is_terminal r.status ≡ false)
unfolding act
send_updates-hides rb done es b h =
    let id = rb.request_id in
    let ops = rb.operations ++ map {A = Extension} {B = Operation} (extension id) es in
    let same : ops ++ status id partial_response ∷ [] ≡ done.operations =
      ap (λ x. x.operations) (some_inj h) in
    let (r, e, f) = status_last id partial_response (build_operations ops b) in
    (
      r,
      subst (λ o. get? id (build (build_operations o b).inner).responses ≡ some r) same
          (ap (λ c. get? id (build c.inner).responses)
              (build_operations-append ops (status id partial_response ∷ []) b)
            ∙ e),
      f,
      subst (λ s. is_terminal s ≡ false) (sym f) partial_response-goes_on,
    )
