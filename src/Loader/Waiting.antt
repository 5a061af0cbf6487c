-- ===== src/Loader/Waiting.antt =====
-- What the loop of waitRemote (requestmanager/reconciledloader/load.go) has seen when it ends.
use go_graphsync.Base.{
  ℕ, suc, zero, ◌≡◌, refl, sym, ap, ◌∙◌, Bool, true, false, not, ◌&&◌, List, [], ◌∷◌, ◌++◌, map,
  Option, none, some, arith, Bool-cases, Option-cases, inl, inr, ◌⊎◌, some_inj, subst,
  if◌then◌else◌,
}
use go_graphsync.Message.{did_follow_link}
use go_graphsync.Traversal.{
  Frame, done, current_path, verify_next, refused, advanced, Verified, VerifyError,
}
use go_graphsync.Traversal.Matching.{Event, accepts}
use go_graphsync.RemoteQueue.{Item, RemoteQueue, empty, first, consume, record_remote_load_attempt}
use go_graphsync.RemoteQueue.Contents.{Held, IsQueue, consume_lem}
use go_graphsync.Loader.{
  Loader, Waited, online, waiting, offline, failed, wait_remote, pending_verifier, catch_up,
}

-- The link of an item, and whether the remote followed it.
abbrev pub event : Held → Event
event e = (e.1.link, did_follow_link e.1.action)

Verified-cases :
    (v : Verified) → ((e : VerifyError) × (v ≡ refused e)) ⊎ ((s : List Frame) × (v ≡ advanced s))
Verified-cases (refused e) = inl (e, refl)
Verified-cases (advanced s) = inr (s, refl)

empty-none : (q : RemoteQueue) → IsQueue q [] → empty q ≡ true
unfolding empty
empty-none q v = rw (v.held, empty) refl

empty-some : (q : RemoteQueue) (e : Held) (es : List Held) → IsQueue q (e ∷ es) → empty q ≡ false
unfolding empty
empty-some q e es v = rw (v.held.0, empty) refl

pub first-some :
    (q : RemoteQueue) (e : Held) (es : List Held) (v : IsQueue q (e ∷ es))
    → first q ≡ some (record e.1 { next = v.held.1 })
unfolding first
first-some q e es v = rw (v.held.0, first) v.held.2

wait_remote-empty :
    (n : ℕ) (l : Loader)
    → empty l.remote_queue ≡ true
    → wait_remote (suc n) l ≡ some ((if l.is_open then waiting else offline), l)
unfolding wait_remote
wait_remote-empty n l h = rw (h, wait_remote) refl

wait_remote-online :
    (n : ℕ) (l : Loader)
    → empty l.remote_queue ≡ false
    → pending_verifier l.verifier ≡ none
    → wait_remote (suc n) l ≡ some (online, record l { verifier = none })
unfolding wait_remote
wait_remote-online n l h p = rw (h, wait_remote) (rw p refl)

wait_remote-verify :
    (n : ℕ) (l : Loader) (stack : List Frame) (item : Item) (q : RemoteQueue)
    → empty l.remote_queue ≡ false
    → pending_verifier l.verifier ≡ some stack
    → first l.remote_queue ≡ some item
    → consume l.remote_queue ≡ some q
    → wait_remote (suc n) l ≡ elim (verify_next item.link (did_follow_link item.action) stack) [
      | refused e ↦ some (failed e, record l { remote_queue = q })
      | advanced rest ↦ wait_remote n (
          catch_up q rest
            (record_remote_load_attempt (current_path stack) item.action l.last_unfollowed)
            l)
    ]
unfolding wait_remote
wait_remote-verify n l stack item q h p f c = rw (h, wait_remote) (rw p (rw f (rw c refl)))

accepts-first :
    (e : Held) (es : List Held) (stack rest : List Frame)
    → verify_next e.1.link (did_follow_link e.1.action) stack ≡ advanced rest
    → accepts (map event (e ∷ es)) stack ≡ accepts (map event es) rest
unfolding accepts
accepts-first e es stack rest h = rw (h, accepts) refl

catch_up-queue :
    (q : RemoteQueue) (s : List Frame) (p : List ℕ) (l : Loader)
    → (catch_up q s p l).remote_queue ≡ q
unfolding catch_up
catch_up-queue q s p l = refl

catch_up-verifier :
    (q : RemoteQueue) (s : List Frame) (p : List ℕ) (l : Loader)
    → (catch_up q s p l).verifier ≡ some s
unfolding catch_up
catch_up-verifier q s p l = refl

pending_verifier-none : (s : List Frame) → pending_verifier (some s) ≡ none → done s ≡ true
unfolding pending_verifier
pending_verifier-none s h = elim (Bool-cases (done s)) [ inl e ↦ e | inr e ↦ absurd (ground arith) ]

pending_verifier-some : (s t : List Frame) → pending_verifier (some s) ≡ some t → s ≡ t
unfolding pending_verifier
pending_verifier-some s t h = elim (Bool-cases (done s)) [
  | inl e ↦ absurd (ground arith)
  | inr e ↦ ground arith
]

wait_remote-zero : (l : Loader) → wait_remote 0 l ≡ none
unfolding wait_remote
wait_remote-zero l = refl

not_online : (b : Bool) → ¬ (if b then waiting else offline) ≡ online
not_online true h = ground arith
not_online false h = ground arith

failed_not_online : (x : VerifyError) → ¬ failed x ≡ online
failed_not_online x h = ground arith

absurd_none : {A : Type 0} {a : A} → ¬ none ≡ some a
absurd_none h = ground arith

-- The outcomes of one and the same run are the same.
same_outcome :
    (o : Option (Waited × Loader)) (w u : Waited) (l k : Loader)
    → ◌≡◌ {A = Option (Waited × Loader)} o (some (w, l))
    → ◌≡◌ {A = Option (Waited × Loader)} o (some (u, k))
    → (w ≡ u) × (l ≡ k)
same_outcome o w u l k a b =
    let same : ◌≡◌ {A = Waited × Loader} (w, l) (u, k) = some_inj (sym a ∙ b) in
    (ap (λ z. z.0) same, ap (λ z. z.1) same)

accepts-done : (s : List Frame) → done s ≡ true → accepts [] s ≡ true
unfolding accepts
accepts-done s h = h

-- What holds where a loop stops with its result.
unfoldable pub stops_right : Waited × Loader → Bool
unfolding empty pending_verifier
stops_right (waiting, l) = l.is_open && empty l.remote_queue
stops_right (offline, l) = not l.is_open && empty l.remote_queue
stops_right (online, l) =
    not (empty l.remote_queue) && (elim l.verifier [ none ↦ true | some s ↦ false ])
stops_right (failed e, l) = true

-- When a loader with a verifier has caught up, the verifier has accepted the links of some items of
-- the queue from its front on, with nothing left to verify, and the queue leads to the others.
pub wait_remote-accepts :
    (es : List Held) (l k : Loader) (fuel : ℕ) (stack : List Frame)
    → IsQueue l.remote_queue es
    → l.verifier ≡ some stack
    → wait_remote fuel l ≡ some (online, k)
    → (before : List Held) × (after : List Held) × (es ≡ before ++ after)
      × (accepts (map event before) stack ≡ true)
      × IsQueue k.remote_queue after
      × (k.verifier ≡ none)
wait_remote-accepts es l k zero stack v s h = absurd (absurd_none (sym (wait_remote-zero l) ∙ h))
wait_remote-accepts [] l k (suc n) stack v s h = absurd (
    not_online l.is_open
      (same_outcome (wait_remote (suc n) l) (if l.is_open then waiting else offline) online l k
        (wait_remote-empty n l (empty-none l.remote_queue v)) h).0)
wait_remote-accepts (e ∷ es) l k (suc n) stack v s h =
    let nonempty = empty-some l.remote_queue e es v in
    elim (Option-cases (pending_verifier l.verifier)) [
      | inl p ↦
          let (_, same) =
            same_outcome (wait_remote (suc n) l) online online (record l { verifier = none }) k
              (wait_remote-online n l nonempty p) h in
          (
            [],
            e ∷ es,
            refl,
            accepts-done stack (pending_verifier-none stack (ap pending_verifier (sym s) ∙ p)),
            subst (λ u. IsQueue u.remote_queue (e ∷ es)) same v,
            ap (λ u. u.verifier) (sym same),
          )
      | inr (t, p) ↦
          let (q, c, w) = consume_lem l.remote_queue e es v in
          let agrees : stack ≡ t =
            pending_verifier-some stack t (ap pending_verifier (sym s) ∙ p) in
          let run =
            wait_remote-verify n l t (record e.1 { next = v.held.1 }) q nonempty p
              (first-some l.remote_queue e es v) c in
          elim (Verified-cases (verify_next e.1.link (did_follow_link e.1.action) t)) [
            | inl (x, g) ↦ absurd (
                failed_not_online x
                  (same_outcome (wait_remote (suc n) l) (failed x) online
                    (record l { remote_queue = q }) k (run ∙ rw g refl) h).0)
            | inr (rest, g) ↦
                let path =
                  record_remote_load_attempt (current_path t) e.1.action l.last_unfollowed in
                let (before, after, split, accepted, good, over) =
                  wait_remote-accepts es (catch_up q rest path l) k n rest
                    (subst (λ u. IsQueue u es) (sym (catch_up-queue q rest path l)) w)
                    (catch_up-verifier q rest path l) (sym (run ∙ rw g refl) ∙ h) in
                (
                  e ∷ before,
                  after,
                  ap (λ u. e ∷ u) split,
                  ap (accepts (map event (e ∷ before))) agrees
                      ∙ accepts-first e before t rest g
                      ∙ accepted,
                  good,
                  over,
                )
          ]
    ]
