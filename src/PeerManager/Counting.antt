-- ===== src/PeerManager/Counting.antt =====
-- The counts of peermanager.go against counters of connections, and the life of the processes.
use go_graphsync.Base.{
  ℕ, ◌+◌, ◌-◌, ◌≡◌, refl, ◌∙◌, ap, Bool, true, false, List, [], ◌∷◌, ◌++◌, Option, none, some,
  arith, ◌==◌, if◌then◌else◌, Option-cases, inl, inr, get?, insert, get?-insert, get?-delete,
  some_inj,
}
use go_graphsync.PeerManager.{
  Instance, Factory, Effect, startup, shutdown, Peers, get_or_create, connected, disconnected,
  get_process, Operation, connect, disconnect, use_process, operate, operate_all,
}

unfoldable pub refs : ℕ → Peers → ℕ
refs p m = elim (get? p m) [ none ↦ 0 | some i ↦ i.refcnt ]

-- A peer's connections after an operation; one that ends where there is none is not counted.
unfoldable pub connections : ℕ → Operation → ℕ → ℕ
connections p (connect q) n = if q == p then n + 1 else n
connections p (disconnect q) n = if q == p then n - 1 else n
connections p (use_process q) n = n

unfoldable pub connections_after : ℕ → List Operation → ℕ → ℕ
unfolding connections
connections_after p [] n = n
connections_after p (o ∷ os) n = connections_after p os (connections p o n)

equal_peers : (q p : ℕ) → (q == p) ≡ true → q ≡ p
equal_peers q p h = ground arith

same_peer : (p q : ℕ) (m : Peers) → (q == p) ≡ true → get? q m ≡ get? p m
same_peer p q m h = ap (λ i. get? i m) (equal_peers q p h)

refs-operate :
    (f : Factory) (p : ℕ) (o : Operation) (m : Peers)
    → refs p (operate f o m).0 ≡ connections p o (refs p m)
unfolding refs operate connections connected disconnected get_process get_or_create
refs-operate f p (connect q) m = elim (Option-cases (get? q m)) [
  | inl e ↦
      let new : Instance = record { refcnt = 0; process = f.create q } in
      ground (
        arith,
        same_peer p q m,
        get?-insert q p (record new { refcnt = 1 }) (insert q new m),
        get?-insert q p new m,
      )
  | inr (i, e) ↦
      ground (arith, same_peer p q m, get?-insert q p (record i { refcnt = i.refcnt + 1 }) m)
]
refs-operate f p (disconnect q) m = elim (Option-cases (get? q m)) [
  | inl e ↦ ground (arith, same_peer p q m)
  | inr (i, e) ↦ ground (
    arith,
    same_peer p q m,
    get?-delete q p m,
    get?-insert q p (record i { refcnt = i.refcnt - 1 }) m,
  )
]
refs-operate f p (use_process q) m = elim (Option-cases (get? q m)) [
  | inl e ↦
      ground
        (arith, same_peer p q m, get?-insert q p (record { refcnt = 0; process = f.create q }) m)
  | inr (i, e) ↦ ground arith
]

refs-operate_all :
    (f : Factory) (p : ℕ) (os : List Operation) (m : Peers)
    → refs p (operate_all f os m).0 ≡ connections_after p os (refs p m)
unfolding operate_all connections_after
refs-operate_all f p [] m = refl
refs-operate_all f p (o ∷ os) m =
    refs-operate_all f p os (operate f o m).0 ∙ ap (connections_after p os) (refs-operate f p o m)

-- Whether the peer's process runs after the effects; `none` is a fault: one that runs is started, or one
-- that does not run is shut down.
unfoldable pub runs_after : ℕ → List Effect → Bool → Option Bool
runs_after p [] b = some b
runs_after p (startup q ∷ es) b =
    let other = runs_after p es b in
    let started = runs_after p es true in if q == p then if b then none else started else other
runs_after p (shutdown q ∷ es) b =
    let other = runs_after p es b in
    let stopped = runs_after p es false in if q == p then if b then stopped else none else other

-- A peer in the map whose process has Startup and Shutdown.
unfoldable pub has_process : Factory → ℕ → Peers → Bool
has_process f p m = elim (get? p m) [ none ↦ false | some i ↦ f.is_peer_process i.process ]

runs_after-++ :
    (p : ℕ) (es fs : List Effect) (b c : Bool)
    → runs_after p es b ≡ some c
    → runs_after p (es ++ fs) b ≡ runs_after p fs c
unfolding runs_after
runs_after-++ p [] fs b c h = ap (runs_after p fs) (some_inj h)
runs_after-++ p (startup q ∷ es) fs b c h =
    ground (arith, runs_after-++ p es fs b c, runs_after-++ p es fs true c)
runs_after-++ p (shutdown q ∷ es) fs b c h =
    ground (arith, runs_after-++ p es fs b c, runs_after-++ p es fs false c)

runs-operate :
    (f : Factory) (p : ℕ) (o : Operation) (m : Peers)
    → runs_after p (operate f o m).1 (has_process f p m) ≡ some (has_process f p (operate f o m).0)
unfolding has_process runs_after operate connected disconnected get_process get_or_create
runs-operate f p (connect q) m = elim (Option-cases (get? q m)) [
  | inl e ↦
      let new : Instance = record { refcnt = 0; process = f.create q } in
      ground (
        arith,
        same_peer p q m,
        get?-insert q p (record new { refcnt = 1 }) (insert q new m),
        get?-insert q p new m,
      )
  | inr (i, e) ↦
      ground (arith, same_peer p q m, get?-insert q p (record i { refcnt = i.refcnt + 1 }) m)
]
runs-operate f p (disconnect q) m = elim (Option-cases (get? q m)) [
  | inl e ↦ ground (arith, same_peer p q m)
  | inr (i, e) ↦ ground (
    arith,
    same_peer p q m,
    get?-delete q p m,
    get?-insert q p (record i { refcnt = i.refcnt - 1 }) m,
  )
]
runs-operate f p (use_process q) m = elim (Option-cases (get? q m)) [
  | inl e ↦
      ground
        (arith, same_peer p q m, get?-insert q p (record { refcnt = 0; process = f.create q }) m)
  | inr (i, e) ↦ ground arith
]

runs-operate_all :
    (f : Factory) (p : ℕ) (os : List Operation) (m : Peers)
    → runs_after p (operate_all f os m).1 (has_process f p m)
      ≡ some (has_process f p (operate_all f os m).0)
unfolding operate_all runs_after
runs-operate_all f p [] m = refl
runs-operate_all f p (o ∷ os) m =
    let (n, es) = operate f o m in
    runs_after-++ p es (operate_all f os n).1 (has_process f p m) (has_process f p n)
      (runs-operate f p o m)
    ∙ runs-operate_all f p os n

-- After any operations of a new peer manager, the count of each peer is the number of its connections,
-- where a disconnection without a connection counts for nothing; and each process was started only
-- where it did not run and shut down only where it ran, and runs just if the peer is in the map and
-- the process has Startup and Shutdown.
pub operate_all-counts :
    (f : Factory) (p : ℕ) (os : List Operation)
    → (refs p (operate_all f os []).0 ≡ connections_after p os 0)
      × (runs_after p (operate_all f os []).1 false
          ≡ some (has_process f p (operate_all f os []).0))
unfolding refs get? has_process
operate_all-counts f p os = (refs-operate_all f p os [], runs-operate_all f p os [])
