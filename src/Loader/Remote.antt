-- ===== src/Loader/Remote.antt =====
-- loadRemote of requestmanager/reconciledloader/load.go: a load from the first item of the remote queue.
-- The local store is a parameter: a state, and a function that writes a block under a link and says
-- whether it could. The span is left out.
use go_graphsync.Base.{
  ℕ, ◌≡◌, refl, sym, ◌∙◌, ap, Bool, true, false, List, ◌∷◌, Option, none, some, arith, ◌==◌, ==_iff,
  if◌then◌else◌, Bool-cases, inl, inr, some_inj, subst,
}
use go_graphsync.RemoteQueue.{Item, RemoteQueue, first, consume, record_remote_load_attempt}
use go_graphsync.RemoteQueue.Contents.{Held, IsQueue, consume_lem}
use go_graphsync.Loader.{Loader}
use go_graphsync.Loader.Waiting.{first-some}

pub data Loaded : Type 0 where
  block_data : List ℕ → Loaded
  no_block storage_failed : Loaded
  incorrect_response : ℕ → Loaded

unfoldable pub with_action : List ℕ → Item → RemoteQueue → Loader → Loader
with_action path head q l = record l {
  remote_queue = q;
  last_unfollowed = record_remote_load_attempt path head.action l.last_unfollowed;
}

block_data_inj : (c d : List ℕ) → block_data c ≡ block_data d → c ≡ d
block_data_inj c d h = ground arith

not_failed : (d : List ℕ) → ¬ storage_failed ≡ block_data d
not_failed d h = ground arith

not_incorrect : (x : ℕ) (d : List ℕ) → ¬ incorrect_response x ≡ block_data d
not_incorrect x d h = ground arith

module _ {S : Type 0} (write : S → ℕ → List ℕ → S × Bool) where
  -- The end of loadRemote, for an item with the link.
  unfoldable pub save_block : ℕ → Option (List ℕ) → S → Loaded × S
  save_block link none s = (no_block, s)
  save_block link (some d) s =
      let r = write s link d in ((if r.1 then block_data d else storage_failed), r.0)

  unfoldable pub load_item : ℕ → List ℕ → Item → RemoteQueue → S → Loader → Loaded × S × Loader
  unfolding save_block with_action
  load_item link path head q s l =
      let r = save_block link head.block s in
      if head.link == link
      then (r.0, r.1, with_action path head q l)
      else (incorrect_response head.link, s, record l { remote_queue = q })

  -- `none` is the fault of an empty queue.
  unfoldable pub load_remote : ℕ → List ℕ → S → Loader → Option (Loaded × S × Loader)
  unfolding load_item first consume
  load_remote link path s l = elim (first l.remote_queue) [
    | none ↦ none
    | some head ↦ elim (consume l.remote_queue) [
      | none ↦ none
      | some q ↦ some (load_item link path head q s l)
    ]
  ]

  load_remote-item :
      (link : ℕ) (path : List ℕ) (s : S) (l : Loader) (head : Item) (q : RemoteQueue)
      → first l.remote_queue ≡ some head
      → consume l.remote_queue ≡ some q
      → load_remote link path s l ≡ some (load_item link path head q s l)
  unfolding load_remote
  load_remote-item link path s l head q f c = rw (f, load_remote) (rw c refl)

  load_item-hit :
      (link : ℕ) (path : List ℕ) (head : Item) (q : RemoteQueue) (s : S) (l : Loader)
      → (head.link == link) ≡ true
      → load_item link path head q s l ≡ (
        (save_block link head.block s).0,
        (save_block link head.block s).1,
        with_action path head q l,
      )
  unfolding load_item
  load_item-hit link path head q s l e = rw (e, load_item) refl

  load_item-miss :
      (link : ℕ) (path : List ℕ) (head : Item) (q : RemoteQueue) (s : S) (l : Loader)
      → (head.link == link) ≡ false
      → load_item link path head q s l
        ≡ (incorrect_response head.link, s, record l { remote_queue = q })
  unfolding load_item
  load_item-miss link path head q s l e = rw (e, load_item) refl

  save_block-data :
      (link : ℕ) (b : Option (List ℕ)) (d : List ℕ) (s : S)
      → (save_block link b s).0 ≡ block_data d
      → (b ≡ some d) × ((save_block link b s).1 ≡ (write s link d).0) × ((write s link d).1 ≡ true)
  unfolding save_block
  save_block-data link none d s h = absurd (ground arith)
  save_block-data link (some c) d s h = elim (Bool-cases (write s link c).1) [
    | inl e ↦
        (let p =
            block_data_inj c d
              (subst (λ b. (if b then block_data c else storage_failed) ≡ block_data d) e h) in
          (ap some p, ap (λ u. (write s link u).0) p, subst (λ u. (write s link u).1 ≡ true) p e))
    | inr e ↦ absurd (
        not_failed d (subst (λ b. (if b then block_data c else storage_failed) ≡ block_data d) e h))
  ]

  -- A load from the remote that gives data has found its own link at the front of the queue, has
  -- written that item's block to the store with success, and leaves the other items in the queue.
  pub load_remote-data :
      (link : ℕ) (path : List ℕ) (s t : S) (l k : Loader) (d : List ℕ) (e : Held) (es : List Held)
      → IsQueue l.remote_queue (e ∷ es)
      → load_remote link path s l ≡ some (block_data d, t, k)
      → (e.1.link ≡ link)
        × (e.1.block ≡ some d)
        × (t ≡ (write s link d).0)
        × ((write s link d).1 ≡ true)
        × IsQueue k.remote_queue es
  unfolding with_action
  load_remote-data link path s t l k d e es v h =
      let (q, c, w) = consume_lem l.remote_queue e es v in
      let head : Item = record e.1 { next = v.held.1 } in
      let same : ◌≡◌ {A = Loaded × S × Loader} (load_item link path head q s l)
          (block_data d, t, k) =
        some_inj
          (sym (load_remote-item link path s l head q (first-some l.remote_queue e es v) c) ∙ h) in
      elim (Bool-cases (e.1.link == link)) [
        | inl f ↦
            (let run = sym (load_item-hit link path head q s l f) ∙ same in
              let (b, u, o) = save_block-data link e.1.block d s (ap (λ z. z.0) run) in
              (
                (==_iff e.1.link link).0 f,
                b,
                sym (ap (λ z. z.1) run) ∙ u,
                o,
                subst (λ z. IsQueue z es) (ap (λ z. z.2.remote_queue) run) w,
              ))
        | inr f ↦ absurd (
            not_incorrect e.1.link d
              (ap (λ z. z.0) (sym (load_item-miss link path head q s l f) ∙ same)))
      ]
